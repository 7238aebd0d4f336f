-- ===== src/Agent/Runner/Quiet/Decline.antt =====
-- With nobody to ask, nothing in the queue grants more calls.
use mathlib.Core.Path.{subst}
use leartech_go_common.Base.{
  ◌≡◌, refl, sym, not, Option, none, some, inl, inr, List, [], ◌∷◌, All, All-append, Bool-cases,
  if◌then◌else◌, is_empty,
}
use leartech_go_common.Base.Results.{Result, ok, err, ◌>>=◌}
use leartech_go_common.Gateway.Stream.{
  StreamChunk, stream_text, stream_reasoning, stream_tool_call, stream_done, stream_error,
  stream_usage,
}
use leartech_go_common.Agent.Loop.{
  Err, Event, Message, Action, send_turn, run_tool, ask_to_continue, show_text, show_reasoning,
  show_error, await_input, show_truncated, show_note, State,
}
use leartech_go_common.Agent.Runner.Ports.{Ports}
use leartech_go_common.Agent.Runner.Drive.{
  chunk_events, all_events, ends_the_turn, turn_events, Driving, Driven, on_outside, enqueue, say,
  writing, writing_answer, writing_error, break_line, received, send_conversation, turn_request,
  run_one, ask_grant, grant_event, act, carry_out, unless_done, ends_in_newline,
}
use leartech_go_common.Agent.Runner.Adds.{Keeps, Keeps-then, say-Keeps, break_line-Keeps}
use leartech_go_common.Agent.Runner.Quiet.Progress.{IsDeclined}

all_events-IsDeclined : (cs : List StreamChunk) → All IsDeclined (all_events cs)
unfolding all_events chunk_events
all_events-IsDeclined [] = tt
all_events-IsDeclined (stream_text t ∷ cs) = (refl, all_events-IsDeclined cs)
all_events-IsDeclined (stream_reasoning t ∷ cs) = (refl, all_events-IsDeclined cs)
all_events-IsDeclined (stream_tool_call c ∷ cs) = (refl, all_events-IsDeclined cs)
all_events-IsDeclined (stream_done f ∷ cs) = (refl, all_events-IsDeclined cs)
all_events-IsDeclined (stream_error e ∷ cs) = (refl, all_events-IsDeclined cs)
all_events-IsDeclined (stream_usage u ∷ cs) = all_events-IsDeclined cs

turn_events-IsDeclined : (cs : List StreamChunk) → All IsDeclined (turn_events cs)
unfolding turn_events
turn_events-IsDeclined cs = elim (Bool-cases (ends_the_turn (all_events cs))) [
  | inl ended ↦ rw ended (all_events-IsDeclined cs)
  | inr open_end ↦
      rw open_end (All-append IsDeclined (all_events cs) _ (all_events-IsDeclined cs) (refl, tt))
]

-- A part that fails, or leaves only events that grant nothing.
abbrev pub Declines : {W : Type 0} → Driven W → Type 0
Declines (ok d) = All IsDeclined d.queue
Declines (err s) = Unit

module _ {W : Type 0} (ports : Ports W) where
  Keeps-Declines : (q : List Event) (m : Driven W) → All IsDeclined q → Keeps q m → Declines m
  Keeps-Declines q (ok d) h k = subst (All IsDeclined) (sym k) h
  Keeps-Declines q (err s) h k = tt

  Keeps-then-Declines :
      (q : List Event) (m : Driven W) (f : Driving W → Driven W)
      → All IsDeclined q
      → Keeps q m
      → ((d : Driving W) → All IsDeclined d.queue → Declines (f d))
      → Declines (m >>= f)
  Keeps-then-Declines q (ok d) f h k j = j d (subst (All IsDeclined) (sym k) h)
  Keeps-then-Declines q (err s) f h k j = tt

  received-IsDeclined :
      (r : Result Err (List StreamChunk)) (w : W) → All IsDeclined (received ports r w).0
  unfolding received
  received-IsDeclined (err e) w = (refl, tt)
  received-IsDeclined (ok cs) w = turn_events-IsDeclined cs

  send-IsDeclined : (ms : List Message) (w : W) → All IsDeclined (send_conversation ports ms w).0
  unfolding send_conversation
  send-IsDeclined ms w =
      received-IsDeclined (ports.chat_stream (turn_request ports ms) w).0
        (ports.chat_stream (turn_request ports ms) w).1

  act-Declines :
      ports.ask_continue ≡ none
      → (a : Action) (d : Driving W) → All IsDeclined d.queue
      → Declines (act ports a d)
  unfolding act on_outside enqueue ask_grant grant_event run_one
  act-Declines quiet (show_text t) d h = Keeps-Declines d.queue _ h (
      Keeps-then ports d.queue (say ports writing_answer t (on_outside ports ports.first_output d))
        (λ d'. record d' {
          needs_break = if is_empty t then d'.needs_break else not (ends_in_newline t);
        })
        (say-Keeps ports writing_answer t (on_outside ports ports.first_output d)) (λ d'. refl))
  act-Declines quiet (show_reasoning t) d h = h
  act-Declines quiet (show_error e) d h =
      Keeps-Declines d.queue _ h (say-Keeps ports writing_error _ _)
  act-Declines quiet (ask_to_continue n u m) d h =
      Keeps-then-Declines d.queue (break_line ports (on_outside ports ports.first_output d)) _ h
        (break_line-Keeps ports (on_outside ports ports.first_output d))
        (λ d' k. All-append IsDeclined d'.queue _ k (rw quiet (refl, tt)))
  act-Declines quiet (run_tool c) d h =
      Keeps-then-Declines d.queue (break_line ports (on_outside ports ports.first_output d)) _ h
        (break_line-Keeps ports (on_outside ports ports.first_output d))
        (λ d' k. All-append IsDeclined d'.queue _ k (refl, tt))
  act-Declines quiet (send_turn ms) d h =
      Keeps-then-Declines d.queue (break_line ports d) _ h (break_line-Keeps ports d) (λ d' k.
        All-append IsDeclined d'.queue _ k (send-IsDeclined ms (ports.turn_started d'.world)))
  act-Declines quiet await_input d h = Keeps-Declines d.queue _ h (say-Keeps ports writing _ _)
  act-Declines quiet (show_truncated f) d h = h
  act-Declines quiet (show_note t) d h = h

  Declines->>= :
      (m : Driven W) (f : Driving W → Driven W)
      → Declines m
      → ((d : Driving W) → All IsDeclined d.queue → Declines (f d))
      → Declines (m >>= f)
  Declines->>= (ok d) f h k = k d h
  Declines->>= (err s) f h k = tt

  unless_done-Declines :
      (o : Option Err) (d : Driving W) (m : Driven W)
      → Declines m
      → Declines (unless_done ports o d m)
  unfolding unless_done
  unless_done-Declines none d m h = h
  unless_done-Declines (some e) d m h = tt

  pub carry_out-Declines :
      ports.ask_continue ≡ none
      → (s : State) (out : List Action) (d : Driving W) → All IsDeclined d.queue
      → Declines (carry_out ports s out d)
  unfolding carry_out on_outside
  carry_out-Declines quiet s [] d h = h
  carry_out-Declines quiet s (a ∷ out) d h = unless_done-Declines (ports.context_err d.world) d _ (
      Declines->>= (act ports a (on_outside ports (ports.record_action a s) d))
        (carry_out ports s out)
        (act-Declines quiet a (on_outside ports (ports.record_action a s) d) h)
        (carry_out-Declines quiet s out))
