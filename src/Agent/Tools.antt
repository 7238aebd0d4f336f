-- ===== src/Agent/Tools.antt =====
-- pkg/agentloop/tools.go, the registry: the tools by qualified name, and the gate that every call
-- passes. `W` is the state of everything outside: a tool, a preview and an approver may change or
-- read it. `quote` is the verb `%q` of the standard library.
pub mod Gate
pub mod Names
use leartech_go_common.Base.{
  Bool, true, false, Option, none, some, List, [], ◌∷◌, ◌++◌, Text, codes, text_eq, is_empty,
  if◌then◌else◌, Text,
}
use leartech_go_common.Agent.Guard.{
  Effect, Verdict, allow, ask, deny, Request, Policy, read_only, decide, refusal,
}

-- `err` of a result is the error's text.
pub record Tool (W : Type 0) : Type 0 where
  pub name : Text
  pub description : Text
  pub schema : Text
  pub run : Text → W → (Text × Option Text) × W
  pub effect : Effect
  pub preview : Option (Text → W → Text)

abbrev pub Approver : Type 0 → Type 0
Approver W = Request → Text → W → Bool × W

pub record Registry (W : Type 0) : Type 0 where
  pub tools : List (Text × Tool W)
  pub order : List Text
  pub policy : Policy
  pub approver : Approver W

pub data AddError : Type 0 where
  no_effect duplicate_tool : Text → AddError

unfoldable pub or_else {ℓ} : {A : Type ℓ} → Option A → A → A
or_else none a = a
or_else (some b) a = b

-- `strings.Join`
unfoldable pub join : List Text → Text → Text
join [] sep = []
join (s ∷ []) sep = s
join (s ∷ t ∷ ss) sep = s ++ (sep ++ join (t ∷ ss) sep)

-- What the model reads of a finished run.
unfoldable pub report : Text × Option Text → Text × Bool
report (out, none) = (out, true)
report (out, some err) = (if is_empty out then err else out ++ (codes "\n\n" ++ err), false)

module _ {W : Type 0} where
  unfoldable pub deny_all : Approver W
  deny_all req reason w = (false, w)

  unfoldable pub allow_all : Approver W
  allow_all req reason w = (true, w)

  unfoldable pub new_registry : Registry W
  unfolding deny_all
  new_registry = record { tools = []; order = []; policy = read_only; approver = deny_all }

  unfoldable pub govern : Option Policy → Option (Approver W) → Registry W → Registry W
  unfolding or_else
  govern p a r = record r { policy = or_else p r.policy; approver = or_else a r.approver }

  -- `r.tools[name]`
  unfoldable pub find : Text → List (Text × Tool W) → Option (Tool W)
  find name [] = none
  find name ((n, t) ∷ ts) = if text_eq n name then some t else find name ts

  unfoldable pub add_new : Option (Tool W) → Tool W → Registry W → Option AddError × Registry W
  add_new (some taken) t r = (some (duplicate_tool t.name), r)
  add_new none t r =
      (none, record r { tools = r.tools ++ (t.name, t) ∷ []; order = r.order ++ t.name ∷ [] })

  unfoldable pub add : Tool W → Registry W → Option AddError × Registry W
  unfolding add_new
  add t r =
      if is_empty t.effect then (some (no_effect t.name), r) else add_new (find t.name r.tools) t r

  unfoldable pub names : Registry W → List Text
  names r = r.order

  -- `strings.TrimSpace` of the arguments is a parameter of the preview.
  unfoldable pub preview_of : (Text → Text) → Registry W → Text → Text → W → Text
  preview_of trim_space r name args w = elim (find name r.tools) [
    | none ↦ trim_space args
    | some t ↦ elim t.preview [ none ↦ trim_space args | some render ↦ render args w ]
  ]

  -- The call past the gate.
  unfoldable pub perform : Tool W → Text → W → (Text × Bool) × W
  unfolding report
  perform t args w = let (result, w') = t.run args w in (report result, w')

  unfoldable pub request_of : Tool W → Text → Request
  request_of t args = record { tool = t.name; effect = t.effect; args = args }

  -- The `switch` on the verdict.
  unfoldable pub gate : Verdict × Text → Approver W → Tool W → Text → W → (Text × Bool) × W
  unfolding perform request_of
  gate (deny, reason) approve t args w = ((refusal (request_of t args) reason, false), w)
  gate (ask, reason) approve t args w =
      let (said, w') = approve (request_of t args) reason w in
      if said
      then perform t args w'
      else ((refusal (request_of t args) (codes "declined"), false), w')
  gate (allow, reason) approve t args w = perform t args w

  unfoldable pub unknown_tool : (Text → Text) → Registry W → Text → Text
  unfolding names join
  unknown_tool quote r name =
      codes "no tool named "
      ++ (quote name ++ (codes ". Available: " ++ join (names r) (codes ", ")))

  unfoldable pub run : (Text → Text) → Registry W → Text → Text → W → (Text × Bool) × W
  unfolding gate
  run quote r name args w = elim (find name r.tools) [
    | none ↦ ((unknown_tool quote r name, false), w)
    | some t ↦ gate (decide r.policy (request_of t args)) r.approver t args w
  ]
