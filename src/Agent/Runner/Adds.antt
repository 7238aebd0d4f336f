-- ===== src/Agent/Runner/Adds.antt =====
-- What carrying out the actions of a step puts into the queue.
use leartech_go_common.Base.{
  ◌≡◌, refl, sym, ap, ◌∙◌, Bool, true, false, not, Option, none, some, List, [], ◌∷◌, ◌++◌, Text,
  if◌then◌else◌, append_assoc, append-nil, is_empty,
}
use leartech_go_common.Base.Results.{Result, ok, err, ◌>>=◌}
use leartech_go_common.Gateway.Stream.{StreamChunk}
use leartech_go_common.Agent.Loop.{
  Err, Event, Message, Action, send_turn, run_tool, ask_to_continue, show_text, show_reasoning,
  show_error, await_input, show_truncated, show_note, State,
}
use leartech_go_common.Agent.Runner.Wire.{ChatRequest}
use leartech_go_common.Agent.Runner.Ports.{Ports}
use leartech_go_common.Agent.Runner.Drive.{
  Driving, Driven, DriveError, writing, on_outside, enqueue, said, say, turn_request,
  writing_answer, writing_error, ends_in_newline, break_line, break_if, received, send_conversation,
  run_one, ask_grant, grant_event, act, carry_out, unless_done,
}
use leartech_go_common.Agent.Runner.Queue.{IsTurn, Queued, Added}
use leartech_go_common.Agent.Runner.Orderly.{orderly, turn_events-IsTurn}

-- A part that fails, or leaves a queue as it was.
abbrev pub Keeps : {W : Type 0} → List Event → Driven W → Type 0
Keeps q (ok d) = d.queue ≡ q
Keeps q (err s) = Unit

-- A part that fails, or adds events to a queue that have a property.
abbrev pub Adds : {W : Type 0} → (List Event → Type 0) → List Event → Driven W → Type 0
Adds P q (ok d) = (es : List Event) × (d.queue ≡ q ++ es) × P es
Adds P q (err s) = Unit

module _ {W : Type 0} (ports : Ports W) where
  pub Keeps->>= :
      (P : List Event → Type 0) (q : List Event) (m : Driven W) (f : Driving W → Driven W)
      → Keeps q m
      → ((d : Driving W) → d.queue ≡ q → Adds P q (f d))
      → Adds P q (m >>= f)
  Keeps->>= P q (ok d) f h k = k d h
  Keeps->>= P q (err s) f h k = tt

  pub Keeps-Adds : (q : List Event) (m : Driven W) → Keeps q m → Adds (λ es. es ≡ []) q m
  Keeps-Adds q (ok d) h = ([], h ∙ sym (append-nil q), refl)
  Keeps-Adds q (err s) h = tt

  pub said-Keeps :
      (wrap : Err → DriveError) (d : Driving W) (r : Option Err × W)
      → Keeps d.queue (said ports wrap d r)
  unfolding said
  said-Keeps wrap d (none, w) = refl
  said-Keeps wrap d (some e, w) = tt

  pub say-Keeps :
      (wrap : Err → DriveError) (t : Text) (d : Driving W) → Keeps d.queue (say ports wrap t d)
  unfolding say
  say-Keeps wrap t d = said-Keeps wrap d (ports.write t d.world)

  pub Keeps-then :
      (q : List Event) (m : Driven W) (f : Driving W → Driving W)
      → Keeps q m
      → ((d : Driving W) → (f d).queue ≡ d.queue)
      → Keeps q (m >>= (λ d. ok (f d)))
  Keeps-then q (ok d) f h k = k d ∙ h
  Keeps-then q (err s) f h k = tt

  break_if-Keeps : (b : Bool) (d : Driving W) → Keeps d.queue (break_if ports b d)
  unfolding break_if
  break_if-Keeps false d = refl
  break_if-Keeps true d =
      Keeps-then d.queue (say ports writing (0x0A ∷ []) d) (λ d'. record d' { needs_break = false })
        (say-Keeps writing (0x0A ∷ []) d) (λ d'. refl)

  pub break_line-Keeps : (d : Driving W) → Keeps d.queue (break_line ports d)
  unfolding break_line
  break_line-Keeps d = break_if-Keeps d.needs_break d

  -- Every stream asks for no call after it has ended the turn.
  abbrev pub AllOrderly : Type 0
  AllOrderly =
      (req : ChatRequest) (w : W) (cs : List StreamChunk)
      → (ports.chat_stream req w).0 ≡ ok cs
      → orderly cs ≡ true

  received-IsTurn :
      (r : Result Err (List StreamChunk)) (w : W)
      → ((cs : List StreamChunk) → r ≡ ok cs → orderly cs ≡ true)
      → IsTurn (received ports r w).0
  unfolding received
  received-IsTurn (err e) w h = (refl, refl, refl)
  received-IsTurn (ok cs) w h = turn_events-IsTurn cs (h cs refl)

  send-IsTurn : AllOrderly → (ms : List Message) (w : W) → IsTurn (send_conversation ports ms w).0
  unfolding send_conversation
  send-IsTurn all ms w =
      received-IsTurn (ports.chat_stream (turn_request ports ms) w).0
        (ports.chat_stream (turn_request ports ms) w).1 (all (turn_request ports ms) w)

  act-Adds : AllOrderly → (a : Action) (d : Driving W) → Adds (Queued a) d.queue (act ports a d)
  unfolding act on_outside enqueue
  act-Adds all (show_text t) d = Keeps-Adds d.queue _ (
      Keeps-then d.queue (say ports writing_answer t (on_outside ports ports.first_output d))
        (λ d'. record d' {
          needs_break = if is_empty t then d'.needs_break else not (ends_in_newline t);
        })
        (say-Keeps writing_answer t (on_outside ports ports.first_output d)) (λ d'. refl))
  act-Adds all (show_reasoning t) d = ([], sym (append-nil d.queue), refl)
  act-Adds all (show_error e) d = Keeps-Adds d.queue _ (say-Keeps writing_error _ _)
  act-Adds all (ask_to_continue n u m) d =
      Keeps->>= (Queued (ask_to_continue n u m)) d.queue
        (break_line ports (on_outside ports ports.first_output d)) _
        (break_line-Keeps (on_outside ports ports.first_output d))
        (λ d' h.
          let es = grant_event ports (ask_grant ports n u m d'.world).0 ∷ [] in
          (es, ap (λ q. q ++ es) h, (refl, refl, refl, refl)))
  act-Adds all (run_tool c) d =
      Keeps->>= (Queued (run_tool c)) d.queue
        (break_line ports (on_outside ports ports.first_output d)) _
        (break_line-Keeps (on_outside ports ports.first_output d))
        (λ d' h.
          let es = (run_one ports c d'.world).0 ∷ [] in (es, ap (λ q. q ++ es) h, (refl, refl)))
  act-Adds all (send_turn ms) d =
      Keeps->>= IsTurn d.queue (break_line ports d) _ (break_line-Keeps d) (λ d' h.
        let es = (send_conversation ports ms (ports.turn_started d'.world)).0 in
        (es, ap (λ q. q ++ es) h, send-IsTurn all ms (ports.turn_started d'.world)))
  act-Adds all await_input d = Keeps-Adds d.queue _ (say-Keeps writing _ _)
  act-Adds all (show_truncated f) d = ([], sym (append-nil d.queue), refl)
  act-Adds all (show_note t) d = ([], sym (append-nil d.queue), refl)

  pub unless_done-Adds :
      (P : List Event → Type 0) (o : Option Err) (d : Driving W) (m : Driven W)
      → Adds P d.queue m
      → Adds P d.queue (unless_done ports o d m)
  unfolding unless_done
  unless_done-Adds P none d m h = h
  unless_done-Adds P (some e) d m h = tt

  Adds-more :
      (P Q R : List Event → Type 0) (q es q' : List Event) (m : Driven W)
      → q' ≡ q ++ es
      → P es
      → Adds Q q' m
      → ((es fs : List Event) → P es → Q fs → R (es ++ fs))
      → Adds R q m
  Adds-more P Q R q es q' (err s) e p h j = tt
  Adds-more P Q R q es q' (ok d) e p (fs, e', k) j =
      (es ++ fs, e' ∙ ap (λ z. z ++ fs) e ∙ append_assoc q es fs, j es fs p k)

  pub Adds->>= :
      (P Q R : List Event → Type 0) (q : List Event) (m : Driven W) (f : Driving W → Driven W)
      → Adds P q m
      → ((d : Driving W) → Adds Q d.queue (f d))
      → ((es fs : List Event) → P es → Q fs → R (es ++ fs))
      → Adds R q (m >>= f)
  Adds->>= P Q R q (err s) f h k j = tt
  Adds->>= P Q R q (ok d) f (es, e, p) k j = Adds-more P Q R q es d.queue (f d) e p (k d) j

  pub carry_out-Adds :
      AllOrderly
      → (s : State) (out : List Action) (d : Driving W)
      → Adds (Added out) d.queue (carry_out ports s out d)
  unfolding carry_out on_outside
  carry_out-Adds all s [] d = ([], sym (append-nil d.queue), refl)
  carry_out-Adds all s (a ∷ out) d =
      unless_done-Adds (Added (a ∷ out)) (ports.context_err d.world) d _ (
        Adds->>= (Queued a) (Added out) (Added (a ∷ out)) d.queue
          (act ports a (on_outside ports (ports.record_action a s) d)) (carry_out ports s out)
          (act-Adds all a (on_outside ports (ports.record_action a s) d)) (carry_out-Adds all s out)
          (λ es fs p q. (es, fs, refl, p, q)))
