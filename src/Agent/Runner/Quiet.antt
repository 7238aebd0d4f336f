-- ===== src/Agent/Runner/Quiet.antt =====
-- When `drive` has emptied its queue, the loop is idle.
pub mod Progress
pub mod Decline
pub mod Ends
use mathlib.Core.Path.{subst}
use leartech_go_common.Base.{
  ℕ, zero, suc, ◌≡◌, ◌≢◌, refl, sym, ap, ◌∙◌, Bool, true, false, not, ◌&&◌, ◌||◌, Option, none,
  some, inl, inr, List, [], ◌∷◌, ◌++◌, arith, Text, Bool-cases, Option-cases, if◌then◌else◌,
  append_assoc, append-nil, ltb, is_empty,
}
use leartech_go_common.Base.Results.{Result, ok, err, ◌>>=◌, >>=-eq-ok}
use leartech_go_common.Gateway.Stream.{
  StreamChunk, stream_text, stream_reasoning, stream_tool_call, stream_done, stream_error,
  stream_usage,
}
use leartech_go_common.Agent.Loop.{
  Loop, Err, Event, model_done, user_input, Message, Action, send_turn, run_tool, ask_to_continue,
  show_text, show_reasoning, show_error, await_input, show_truncated, show_note, State, idle, step,
}
use leartech_go_common.Agent.Loop.Invariant.{IsSettled, step-IsSettled}
use leartech_go_common.Agent.Runner.Wire.{ChatRequest}
use leartech_go_common.Agent.Runner.Ports.{Ports}
use leartech_go_common.Agent.Runner.Drive.{
  blank_event, chunk_events, all_events, ends_the_turn, is_terminal, turn_events, Driving, Driven,
  DriveError, Stop, writing, on_outside, enqueue, said, say, turn_request, writing_answer,
  writing_error, ends_in_newline, break_line, break_if, received, send_conversation, run_one,
  ask_grant, grant_event, act, carry_out, unless_done, go_on, drive_on, drive,
}
use leartech_go_common.Agent.Runner.Queue.{
  no_calls, calm, has_end, live, IsTurn, Queued, Added, no_calls-append, has_end-append,
  calm_of_no_calls,
}
use leartech_go_common.Agent.Runner.Live.{step-live, live-idle}
use leartech_go_common.Agent.Runner.Adds.{
  Keeps, Adds, Keeps->>=, Keeps-then, Keeps-Adds, say-Keeps, break_line-Keeps, unless_done-Adds,
  Adds->>=, AllOrderly, carry_out-Adds,
}

module _ {W : Type 0} (ports : Ports W) where
  -- A driven loop has not stopped, or is idle and settled, or its part failed.
  abbrev pub EndsIdle : Option (Loop × Driven W) → Type 0
  EndsIdle none = Unit
  EndsIdle (some (l, err s)) = Unit
  EndsIdle (some (l, ok d)) = (l.state ≡ idle) × IsSettled l

  pub live-no_input :
      (l : Loop) (e : Event) (q : List Event) → live l (e ∷ q) ≡ true → e.kind ≢ user_input
  live-no_input l e q h k = ground arith

  go_on-EndsIdle :
      (rest : List Event → Loop → Driving W → Option (Loop × Driven W)) (l : Loop) (q : List Event)
      (m : Driven W) (P : List Event → Type 0)
      → Adds P q m
      → ((es : List Event) (d : Driving W) → P es → EndsIdle (rest (q ++ es) l d))
      → EndsIdle (go_on ports rest l m)
  unfolding go_on
  go_on-EndsIdle rest l q (err s) P h k = tt
  go_on-EndsIdle rest l q (ok d) P (es, e, p) k =
      subst (λ q'. EndsIdle (rest q' l d)) (sym e) (k es d p)

  pub drive_on-EndsIdle :
      AllOrderly ports
      → (fuel : ℕ) (q : List Event) (l : Loop) (d : Driving W) → IsSettled l
      → live l q ≡ true
      → EndsIdle (drive_on ports fuel q l d)
  unfolding drive_on
  drive_on-EndsIdle all fuel [] l d s h = (live-idle l s h, s)
  drive_on-EndsIdle all zero (e ∷ q) l d s h = tt
  drive_on-EndsIdle all (suc fuel) (e ∷ q) l d s h =
      go_on-EndsIdle (drive_on ports fuel) (step l e).0 q _ (Added (step l e).1)
        (carry_out-Adds ports all (step l e).0.state (step l e).1 (record d { queue = q }))
        (λ es d' added.
          drive_on-EndsIdle all fuel (q ++ es) (step l e).0 d' (step-IsSettled l e s)
            (step-live l e q es (live-no_input l e q h) h added))
