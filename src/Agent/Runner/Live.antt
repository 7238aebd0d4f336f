-- ===== src/Agent/Runner/Live.antt =====
-- Every step leaves enough in the queue for the loop to go on.
use mathlib.Core.Path.{subst}
use leartech_go_common.Base.{
  ◌≡◌, ◌≢◌, ap, true, false, inl, inr, List, [], ◌∷◌, ◌++◌, arith, ◌⊎◌, length-append,
}
use leartech_go_common.Agent.Loop.{
  Loop, Message, Event, user_input, tool_result, send_turn, idle, awaiting, running, step,
}
use leartech_go_common.Agent.Loop.Invariant.{IsSettled}
use leartech_go_common.Agent.Loop.Budget.{runs-map}
use leartech_go_common.Agent.Runner.Queue.{
  Added, Added-KeepsCalls, Added-IsTurn, IsTurn, KeepsCalls, calm-append, calm-append_turn,
  calm_of_no_calls, calm_weaken, has_answer-append, has_end-append, is_empty-snoc, live, live_at,
  no_calls, no_calls-append, results-append, runs_sends-map, sends,
}

-- A step sends a turn only as its one action, after which the loop awaits the reply with nothing
-- pending, unless the step starts an input.
pub step-sends :
    (l : Loop) (e : Event)
    → e.kind ≢ user_input
    → (sends (step l e).1 ≡ false)
      ⊎ ((ms : List Message) × ((step l e).1 ≡ send_turn ms ∷ [])
          × (l.state ≡ running)
          × (e.kind ≡ tool_result)
          × ((step l e).0.state ≡ awaiting)
          × ((step l e).0.pending ≡ []))
unfolding step
step-sends l e h = grind (arith, runs_sends-map)

-- A step that sends no turn.
step-live_quiet :
    (l : Loop) (e : Event) (q es : List Event)
    → live l (e ∷ q) ≡ true
    → sends (step l e).1 ≡ false
    → KeepsCalls (step l e).1 es
    → live (step l e).0 (q ++ es) ≡ true
unfolding step KeepsCalls
step-live_quiet l e q es h s (kept, same, asked) = grind (
  arith,
  length-append,
  no_calls-append q es,
  results-append q es,
  has_answer-append q es,
  has_end-append q es,
  calm-append q es true,
  calm-append q es false,
  calm_weaken q,
  is_empty-snoc,
  calm_of_no_calls q true,
  calm_of_no_calls q false,
  runs-map l.pending,
  runs_sends-map l.pending,
)

-- A step that sends a turn, with the turn in the queue.
step-live_turn :
    (l : Loop) (e : Event) (q es : List Event)
    → live l (e ∷ q) ≡ true
    → l.state ≡ running
    → (step l e).0.state ≡ awaiting
    → (step l e).0.pending ≡ []
    → IsTurn es
    → live (step l e).0 (q ++ es) ≡ true
step-live_turn l e q es h r a p (t, f, d) =
    let calls : no_calls q ≡ true = ground (arith, ap (λ s. live_at s l (e ∷ q)) r) in
    rw
      (
        ap (λ s. live_at s (step l e).0 (q ++ es)) a,
        p,
        calm-append_turn q es calls t,
        has_end-append q es,
        d,
      )
      (ground arith)

-- What a step leaves to do, with what its actions put into the queue, is enough again.
pub step-live :
    (l : Loop) (e : Event) (q es : List Event)
    → e.kind ≢ user_input
    → live l (e ∷ q) ≡ true
    → Added (step l e).1 es
    → live (step l e).0 (q ++ es) ≡ true
step-live l e q es k h added = elim (step-sends l e k) [
  | inl quiet ↦ step-live_quiet l e q es h quiet (Added-KeepsCalls (step l e).1 es added quiet)
  | inr (ms, out, r, kind, a, p) ↦
      step-live_turn l e q es h r a p (Added-IsTurn ms es (subst (λ o. Added o es) out added))
]

-- With nothing left in the queue the loop is idle.
pub live-idle : (l : Loop) → IsSettled l → live l [] ≡ true → l.state ≡ idle
live-idle l settled h = ground arith
