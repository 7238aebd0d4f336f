-- ===== src/Agent/Tools/Gate.antt =====
-- Every call passes the gate: what the policy and the approver do not permit is not run.
use leartech_go_common.Base.{
  Bool, true, false, ◌≡◌, refl, Option, some, List, [], ◌∷◌, Text, codes, arith, text_eq,
  if◌then◌else◌, inl, inr, Bool-cases, ◌∙◌, ◌||◌,
}
use leartech_go_common.Agent.Guard.{
  Verdict, allow, ask, deny, Request, read_only_reason, decide, refusal, writes, executes,
}
use leartech_go_common.Agent.Guard.ReadOnly.{decide-read_only}
use leartech_go_common.Agent.Tools.Names.{add_all}
use leartech_go_common.Agent.Tools.{
  Tool, Approver, Registry, new_registry, find, add, run, gate, perform, request_of,
}

-- The reason that a refused call is given.
abbrev pub said_no : Verdict × Text → Text
said_no (ask, reason) = codes "declined"
said_no (allow, reason) = reason
said_no (deny, reason) = reason

module _ {W : Type 0} where
  -- Whether a verdict, with the approver's answer where it asks, lets a call pass.
  abbrev pub passes : Verdict × Text → Approver W → Request → W → Bool
  passes (allow, reason) approve req w = true
  passes (ask, reason) approve req w = (approve req reason w).0
  passes (deny, reason) approve req w = false

  -- The outside after the question, if there was one.
  abbrev pub asked : Verdict × Text → Approver W → Request → W → W
  asked (ask, reason) approve req w = (approve req reason w).1
  asked (allow, reason) approve req w = w
  asked (deny, reason) approve req w = w

  gate_lem :
      (v : Verdict × Text) (a : Approver W) (t : Tool W) (args : Text) (w : W)
      → gate v a t args w ≡ (
          if passes v a (request_of t args) w
          then perform t args (asked v a (request_of t args) w)
          else ((refusal (request_of t args) (said_no v), false), asked v a (request_of t args) w))
  unfolding gate
  gate_lem (allow, reason) a t args w = refl
  gate_lem (ask, reason) a t args w = refl
  gate_lem (deny, reason) a t args w = refl

  -- A call of a registered tool runs it exactly when the policy allows the call, or asks and the
  -- approver says yes. Otherwise the model is told the refusal, as a failure, and the outside is
  -- changed by nothing but the approver.
  pub run_gated :
      (quote : Text → Text) (r : Registry W) (name args : Text) (w : W) (t : Tool W)
      → find name r.tools ≡ some t
      → run quote r name args w ≡ (
          let req = request_of t args in
          let v = decide r.policy req in
          if passes v r.approver req w
          then perform t args (asked v r.approver req w)
          else ((refusal req (said_no v), false), asked v r.approver req w))
  unfolding run
  run_gated quote r name args w t h =
      rw (h, run) (gate_lem (decide r.policy (request_of t args)) r.approver t args w)

  -- What a refused call gives does not depend on the code of the tool.
  pub refused_ignores_code :
      (v : Verdict × Text) (a : Approver W) (t : Tool W)
      (code : Text → W → (Text × Option Text) × W) (args : Text) (w : W)
      → passes v a (request_of t args) w ≡ false
      → gate v a t args w ≡ gate v a (record t { run = code }) args w
  unfolding request_of
  refused_ignores_code v a t code args w h =
      rw (gate_lem v a t args w, gate_lem v a (record t { run = code }) args w, h)

  add-policy :
      (t : Tool W) (r : Registry W)
      → ((add t r).1.policy ≡ r.policy) × ((add t r).1.approver ≡ r.approver)
  unfolding add
  add-policy t r = ground arith

  add_all-policy : (ts : List (Tool W)) (r : Registry W) → (add_all ts r).policy ≡ r.policy
  add_all-policy [] r = refl
  add_all-policy (t ∷ ts) r = cc (add_all-policy ts (add t r).1, (add-policy t r).0)

  -- A registry that is not governed runs no tool that declares `writes` or `executes`, whatever
  -- the tool, the arguments and the outside: the model is told that the shell is read-only, and
  -- nothing outside changes. A tool with any other effect is run without a question.
  pub new_registry_read_only :
      (quote : Text → Text) (ts : List (Tool W)) (name args : Text) (w : W) (t : Tool W)
      → find name (add_all ts new_registry).tools ≡ some t
      → run quote (add_all ts new_registry) name args w ≡ (
          if text_eq t.effect writes || text_eq t.effect executes
          then ((refusal (request_of t args) read_only_reason, false), w)
          else perform t args w)
  unfolding new_registry request_of
  new_registry_read_only quote ts name args w t h =
      let gated = run_gated quote (add_all ts new_registry) name args w t h in
      let policy = add_all-policy ts new_registry in
      let verdict = decide-read_only (request_of t args) in
      gated
      ∙ rw (policy, verdict)
          (elim (Bool-cases (text_eq t.effect writes || text_eq t.effect executes)) [
            | inl bad ↦ rw (bad, request_of)
            | inr fine ↦ rw (fine, request_of)
          ])
