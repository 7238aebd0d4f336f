-- ===== src/Agent/Loop/History.antt =====
-- The conversation: it only grows, and what is sent is the whole of it.
use leartech_go_common.Base.{
  ◌≡◌, refl, List, [], ◌∷◌, ◌++◌, map, arith, length, append_assoc, append-nil, sym, ◌∙◌, take,
  drop, take-append-drop, ap, ◌⊎◌,
}
use leartech_go_common.Agent.Loop.{
  Loop, Event, Message, Action, ToolCall, send_turn, awaiting, step, steps, run_tool,
}

-- One list of messages continues another.
abbrev pub Extends : List Message → List Message → Type 0
Extends old now = (rest : List Message) × (now ≡ old ++ rest)

-- The turns that a list of actions sends.
abbrev pub sent : List Action → List (List Message)
sent [] = []
sent (send_turn ms ∷ out) = ms ∷ sent out
sent (_ ∷ out) = sent out

sent-map : (cs : List ToolCall) → sent (map run_tool cs) ≡ []
sent-map [] = refl
sent-map (c ∷ cs) = sent-map cs

-- Whatever the event and the state, the loop asks for at most one turn to be sent. It is the whole
-- conversation as the loop holds it afterwards, and the loop then awaits the reply.
pub sent-step :
    (l : Loop) (e : Event)
    → (sent (step l e).1 ≡ [])
      ⊎ ((sent (step l e).1 ≡ (step l e).0.messages ∷ []) × ((step l e).0.state ≡ awaiting))
unfolding step
sent-step l e = grind (arith, sent-map)

take-append {ℓ} : {A : Type ℓ} (xs ys : List A) → take (length xs) (xs ++ ys) ≡ xs
take-append [] ys = refl
take-append (x ∷ xs) ys = ap (λ r. x ∷ r) (take-append xs ys)

take_all {ℓ} : {A : Type ℓ} (xs : List A) → take (length xs) xs ≡ xs
take_all [] = refl
take_all (x ∷ xs) = ap (λ r. x ∷ r) (take_all xs)

take-step : (l : Loop) (e : Event) → take (length l.messages) (step l e).0.messages ≡ l.messages
unfolding step
take-step l e = grind (arith, take-append, take_all)

step-Extends : (l : Loop) (e : Event) → Extends l.messages (step l e).0.messages
step-Extends l e =
    let now = (step l e).0.messages in
    let n = length l.messages in
    (drop n now, sym (take-append-drop n now) ∙ ap (λ r. r ++ drop n now) (take-step l e))

-- No event removes or changes a message: after any events the conversation continues the old one.
pub steps-Extends : (l : Loop) (es : List Event) → Extends l.messages (steps l es).0.messages
unfolding steps
steps-Extends l [] = ([], sym (append-nil l.messages))
steps-Extends l (e ∷ es) =
    let (r, p) = step-Extends l e in
    let (q, t) = steps-Extends (step l e).0 es in (r ++ q, cc (p, t, append_assoc l.messages r q))
