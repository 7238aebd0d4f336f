-- ===== src/Agent/Checkpoint/Resume.antt =====
-- A checkpoint that is restored continues the conversation it was taken from.
use mathlib.Core.Path.{subst}
use leartech_go_common.Base.{
  true, ◌≡◌, ◌≢◌, refl, sym, ◌∙◌, Option, some, List, [], ◌∷◌, ap, Text, arith, ◌⊎◌, inl, inr,
}
use leartech_go_common.Base.Int.{ℤ, pos, ltb_ℤ}
use leartech_go_common.Base.Results.{ok}
use leartech_go_common.Agent.Loop.{
  idle, awaiting, Loop, Event, Action, user_input, model_tool_call, budget_answer, new, step, steps,
}
use leartech_go_common.Agent.Loop.Invariant.{Settled, IsSettled, new-steps-IsSettled}
use leartech_go_common.Agent.Checkpoint.{
  Checkpoint, checkpoint, restore_checkpoint, restored_loop, checkpoint_version,
}

-- Only the default grant differs.
abbrev rebudgeted : ℤ → Loop × List Action → Loop × List Action
rebudgeted b (l, out) = (record l { budget = b }, out)

-- A yes to the budget question says how many calls it grants.
abbrev pub StatesGrant : Event → Type 0
StatesGrant e = e.kind ≡ budget_answer → ltb_ℤ (pos 0) e.grant ≡ true

abbrev pub GrantsStated : List Event → Type 0
GrantsStated [] = Unit
GrantsStated (e ∷ es) = StatesGrant e × GrantsStated es

step-rebudgeted :
    (b : ℤ) (l : Loop) (e : Event)
    → StatesGrant e
    → step (record l { budget = b }) e ≡ rebudgeted b (step l e)
unfolding step
step-rebudgeted b l e h = ground (arith, h)

steps-rebudgeted :
    (b : ℤ) (l : Loop) (es : List Event)
    → GrantsStated es
    → steps (record l { budget = b }) es ≡ rebudgeted b (steps l es)
unfolding steps
steps-rebudgeted b l [] h = refl
steps-rebudgeted b l (e ∷ es) (h, hs) =
    rw (step-rebudgeted b l e h) (rw (steps-rebudgeted b (step l e).0 es hs) refl)

step-budget : (l : Loop) (e : Event) → (step l e).0.budget ≡ l.budget
unfolding step
step-budget l e = ground arith

steps-budget : (l : Loop) (es : List Event) → (steps l es).0.budget ≡ l.budget
unfolding steps
steps-budget l [] = refl
steps-budget l (e ∷ es) = steps-budget (step l e).0 es ∙ step-budget l e

-- A model asks for a call only while its turn is awaited.
abbrev CallInTurn : Loop → Event → Type 0
CallInTurn l e = e.kind ≡ model_tool_call → l.state ≡ awaiting

abbrev pub CallsInTurn : Loop → List Event → Type 0
CallsInTurn l [] = Unit
CallsInTurn l (e ∷ es) = CallInTurn l e × CallsInTurn (step l e).0 es

abbrev IdleEmpty : Loop → Type 0
IdleEmpty l = l.state ≡ idle → l.pending ≡ []

step-IdleEmpty : (l : Loop) (e : Event) → CallInTurn l e → IdleEmpty l → IdleEmpty (step l e).0
unfolding step
step-IdleEmpty l e call h = ground (arith, call, h)

steps-IdleEmpty :
    (l : Loop) (es : List Event) → CallsInTurn l es → IdleEmpty l → IdleEmpty (steps l es).0
unfolding steps
steps-IdleEmpty l [] call h = h
steps-IdleEmpty l (e ∷ es) (call, calls) h =
    steps-IdleEmpty (step l e).0 es calls (step-IdleEmpty l e call h)

-- A new loop after some events.
abbrev pub reached : Text → ℤ → List Event → Loop
reached system max_tools before = (steps (new system max_tools) before).0

new-IdleEmpty : (system : Text) (max_tools : ℤ) → IdleEmpty (new system max_tools)
unfolding new
new-IdleEmpty system max_tools h = refl

reached-budget :
    (system : Text) (max_tools : ℤ) (before : List Event)
    → (reached system max_tools before).budget ≡ max_tools
unfolding new
reached-budget system max_tools before = steps-budget (new system max_tools) before

unraised :
    (system : Text) (max_tools : ℤ) (before es : List Event)
    → ((reached system max_tools before).max_tools ≡ max_tools) ⊎ GrantsStated es
    → ((reached system max_tools before).max_tools ≡ (reached system max_tools before).budget)
      ⊎ GrantsStated es
unraised system max_tools before es (inl same) =
    inl (same ∙ sym (reached-budget system max_tools before))
unraised system max_tools before es (inr stated) = inr stated

settled_idle : (l : Loop) → IsSettled l → l.state ≡ idle → l.answered ≡ []
settled_idle l h e = subst (λ s. Settled s l.pending l.answered) e h

module _ (sha256_hex : Text → Text) where
  restored_step :
      (l : Loop) (e : Event)
      → l.state ≡ idle
      → l.pending ≡ []
      → l.answered ≡ []
      → e.kind ≡ user_input
      → step (restored_loop l.messages l.max_tools) e ≡ rebudgeted l.max_tools (step l e)
  unfolding step restored_loop
  restored_step l e s p a k = ground arith

  rebudgeted_same : (b : ℤ) (x : Loop × List Action) → x.0.budget ≡ b → rebudgeted b x ≡ x
  rebudgeted_same b x h = ap (λ n. rebudgeted n x) (sym h)

  restored_steps :
      (l : Loop) (input : Event) (es : List Event)
      → l.state ≡ idle
      → l.pending ≡ []
      → l.answered ≡ []
      → input.kind ≡ user_input
      → (l.max_tools ≡ l.budget) ⊎ GrantsStated es
      → steps (restored_loop l.messages l.max_tools) (input ∷ es)
        ≡ rebudgeted l.max_tools (steps l (input ∷ es))
  unfolding steps
  restored_steps l input es s p a k (inr stated) =
      rw (restored_step l input s p a k)
        (rw (steps-rebudgeted l.max_tools (step l input).0 es stated) refl)
  restored_steps l input es s p a k (inl same) =
      let first : step (restored_loop l.messages l.max_tools) input ≡ step l input =
        restored_step l input s p a k
        ∙ rebudgeted_same l.max_tools (step l input) (step-budget l input ∙ sym same) in
      rw first (
        sym (
          rebudgeted_same l.max_tools (steps l (input ∷ es))
            (steps-budget l (input ∷ es) ∙ sym same)))

  taken_idle :
      (l : Loop) (turn : ℤ) (prev_hash : Text) (c : Checkpoint)
      → checkpoint sha256_hex l turn prev_hash ≡ ok c
      → (l.state ≡ idle) × (c.messages ≡ l.messages) × (c.version ≡ checkpoint_version)
  unfolding checkpoint
  taken_idle l turn prev_hash c h = ground arith

  restore_taken :
      (decode : Text → Option Checkpoint) (b : Text) (m : ℤ) (c : Checkpoint)
      → decode b ≡ some c
      → c.version ≡ checkpoint_version
      → c.messages ≢ []
      → restore_checkpoint decode b m ≡ ok (restored_loop c.messages m)
  unfolding restore_checkpoint
  restore_taken decode b m c read v some_messages = ground arith

  resumed :
      (decode : Text → Option Checkpoint) (b : Text) (l : Loop) (turn : ℤ) (prev_hash : Text)
      (c : Checkpoint) (input : Event) (es : List Event)
      → (l.state ≡ idle → l.pending ≡ [])
      → IsSettled l
      → checkpoint sha256_hex l turn prev_hash ≡ ok c
      → decode b ≡ some c
      → c.messages ≢ []
      → input.kind ≡ user_input
      → (l.max_tools ≡ l.budget) ⊎ GrantsStated es
      → (r : Loop) × (restore_checkpoint decode b l.max_tools ≡ ok r)
        × (steps r (input ∷ es) ≡ rebudgeted l.max_tools (steps l (input ∷ es)))
  resumed decode b l turn prev_hash c input es empty settled taken read some_messages k grants =
      let (s, ms, v) = taken_idle l turn prev_hash c taken in
      (
        restored_loop l.messages l.max_tools,
        (let back = restore_taken decode b l.max_tools c read v some_messages in rw ms at back),
        restored_steps l input es s (empty s) (settled_idle l settled s) k grants,
      )

  -- Run a new loop on any events in which the model asks for a call only while its turn is awaited,
  -- and take a checkpoint that is not refused. If the conversation is not empty and the JSON library
  -- reads the checkpoint back, then it is restored under the ceiling that the loop has by then, and
  -- from the next input on the restored loop gives the same actions as the old one, whatever events
  -- follow, and ends as the old one does, save that its default grant (`budget`) is that ceiling. This
  -- takes that no grant has raised the ceiling yet, or that every later answer to the budget question
  -- states its grant, since the default grant of the old loop is not saved.
  pub restore-checkpoint :
      (decode : Text → Option Checkpoint) (b system : Text) (max_tools : ℤ) (before : List Event)
      (turn : ℤ) (prev_hash : Text) (c : Checkpoint) (input : Event) (es : List Event)
      → CallsInTurn (new system max_tools) before
      → checkpoint sha256_hex (reached system max_tools before) turn prev_hash ≡ ok c
      → decode b ≡ some c
      → c.messages ≢ []
      → input.kind ≡ user_input
      → ((reached system max_tools before).max_tools ≡ max_tools) ⊎ GrantsStated es
      → (r : Loop) × (restore_checkpoint decode b (reached system max_tools before).max_tools
          ≡ ok r)
        × ((steps r (input ∷ es)).1 ≡ (steps (reached system max_tools before) (input ∷ es)).1)
        × ((steps r (input ∷ es)).0
            ≡ record (steps (reached system max_tools before) (input ∷ es)).0 {
              budget = (reached system max_tools before).max_tools;
            })
  restore-checkpoint decode b system max_tools before turn prev_hash c input es calls taken read
        some_messages k grants =
      let l : Loop = reached system max_tools before in
      let (r, restored, same) =
        resumed decode b l turn prev_hash c input es
          (steps-IdleEmpty (new system max_tools) before calls (new-IdleEmpty system max_tools))
          (new-steps-IsSettled system max_tools before) taken read some_messages k
          (unraised system max_tools before es grants) in
      (r, restored, ap (λ x. x.1) same, ap (λ x. x.0) same)
