-- ===== src/Agent/Loop/Turn.antt =====
-- One turn of the conversation, from the model's calls to the turn that carries their results.
use leartech_go_common.Base.{
  ◌+◌, ◌≡◌, refl, ◌≢◌, false, List, [], ◌∷◌, ◌++◌, map, arith, Text, length, length-append,
  append_assoc, append-nil, none, some, ◌<◌,
}
use leartech_go_common.Base.Int.{pos, ◌≤ℤ◌}
use leartech_go_common.Agent.Loop.{
  Loop, Event, EventKind, Message, ToolCall, send_turn, awaiting, running, step, steps, run_tool,
  model_tool_call, model_done, tool_result, call_message, result_message, run_pending,
}

abbrev pub blank : EventKind → Event
blank k = record {
  kind = k;
  text = [];
  tool_call = none;
  result = [];
  result_ok = false;
  finish = [];
  err = none;
  allow = false;
  grant = pos 0;
}

-- The model asks for a call; it ends its turn; a tool returns.
abbrev pub called : ToolCall → Event
called c = record (blank model_tool_call) { tool_call = some c }

abbrev pub done : Text → Event
done finish = record (blank model_done) { finish = finish }

abbrev pub returned : ToolCall × Text → Event
returned (c, r) = record (blank tool_result) { tool_call = some c; result = r }

abbrev pub answer : ToolCall × Text → Message
answer (c, r) = result_message c r

steps-append :
    (l : Loop) (xs ys : List Event)
    → steps l (xs ++ ys)
      ≡ ((steps (steps l xs).0 ys).0, (steps l xs).1 ++ (steps (steps l xs).0 ys).1)
unfolding steps
steps-append l [] ys = refl
steps-append l (x ∷ xs) ys = simp (steps-append (step l x).0 xs ys, append_assoc)

steps-called :
    (l : Loop) (cs : List ToolCall)
    → steps l (map called cs) ≡ (record l { pending = l.pending ++ cs }, [])
unfolding steps step
steps-called l [] = rw append-nil
steps-called l (c ∷ cs) =
    simp (steps-called (record l { pending = l.pending ++ c ∷ [] }) cs, append_assoc)

-- A result that leaves another call without one is only recorded.
step-returned :
    (l : Loop) (c : ToolCall) (t : Text)
    → l.state ≡ running
    → length l.answered + 1 < length l.pending
    → step l (returned (c, t)) ≡ (record l { answered = l.answered ++ result_message c t ∷ [] }, [])
unfolding step
step-returned l c t s h = ground (arith, length-append l.answered (result_message c t ∷ []))

-- The last one sends the turn.
step-returned_last :
    (l : Loop) (c : ToolCall) (t : Text)
    → l.state ≡ running
    → length l.answered + 1 ≡ length l.pending
    → step l (returned (c, t)) ≡ (
      record l {
        messages = l.messages ++ (l.answered ++ result_message c t ∷ []);
        pending = [];
        answered = [];
        state = awaiting;
      },
      send_turn (l.messages ++ (l.answered ++ result_message c t ∷ [])) ∷ [],
    )
unfolding step
step-returned_last l c t s h = ground (arith, length-append l.answered (result_message c t ∷ []))

-- The loop after all of its pending calls have returned.
abbrev pub resumed : Loop → List Message → Loop
resumed l ms = record l {
  messages = l.messages ++ ms;
  pending = [];
  answered = [];
  state = awaiting;
}

steps-returned :
    (l : Loop) (r : ToolCall × Text) (rs : List (ToolCall × Text))
    → l.state ≡ running
    → length l.answered + length (r ∷ rs) ≡ length l.pending
    → steps l (map returned (r ∷ rs)) ≡ (
      resumed l (l.answered ++ map answer (r ∷ rs)),
      send_turn (l.messages ++ (l.answered ++ map answer (r ∷ rs))) ∷ [],
    )
unfolding steps
steps-returned l (c, t) [] s h = rw (step-returned_last l c t s (omega arith))
steps-returned l (c, t) (r ∷ rs) s h =
    let l' : Loop = record l { answered = l.answered ++ result_message c t ∷ [] } in
    rw (step-returned l c t s (omega arith)) (
      rw
        (steps-returned l' r rs s
          (omega (arith, length-append l.answered (result_message c t ∷ []))))
        (simp append_assoc))

step-done :
    (l : Loop) (finish : Text)
    → l.pending ≢ []
    → pos (l.used + length l.pending) ≤ℤ l.max_tools
    → step l (done finish) ≡ run_pending l
unfolding step
step-done l finish p h = ground arith

steps-cons :
    (l : Loop) (e : Event) (es : List Event)
    → steps l (e ∷ es) ≡ ((steps (step l e).0 es).0, (step l e).1 ++ (steps (step l e).0 es).1)
unfolding steps
steps-cons l e es = refl

-- The loop that awaits a turn, with some calls asked for and none answered.
abbrev fresh : Loop → List ToolCall → Loop
fresh l cs = record l { state = awaiting; pending = cs; answered = [] }

fresh_self : (l : Loop) → l.state ≡ awaiting → l.pending ≡ [] → l.answered ≡ [] → fresh l [] ≡ l
fresh_self l s p a = ground arith

-- The loop after the calls have been asked for, run and answered.
abbrev turned : Loop → List ToolCall → List Message → Loop
turned l cs results = record (fresh l []) {
  messages = l.messages ++ (call_message cs ∷ results);
  used = l.used + length cs;
}

turned_self :
    (l : Loop) (cs : List ToolCall) (results : List Message)
    → l.state ≡ awaiting
    → l.pending ≡ []
    → l.answered ≡ []
    → turned l cs results
      ≡ record l { messages = l.messages ++ (call_message cs ∷ results); used = l.used + length cs }
turned_self l cs results s p a = ground arith

fresh_turn :
    (l : Loop) (cs : List ToolCall) (finish : Text) (r : ToolCall × Text)
    (rs : List (ToolCall × Text))
    → cs ≢ []
    → pos (l.used + length cs) ≤ℤ l.max_tools
    → length (r ∷ rs) ≡ length cs
    → steps (fresh l []) (map called cs ++ done finish ∷ map returned (r ∷ rs)) ≡ (
      turned l cs (map answer (r ∷ rs)),
      map run_tool cs ++ send_turn (l.messages ++ (call_message cs ∷ map answer (r ∷ rs))) ∷ [],
    )
fresh_turn l cs finish r rs p fits same =
    let running_loop : Loop = record (fresh l cs) {
      messages = l.messages ++ call_message cs ∷ [];
      state = running;
      used = l.used + length cs;
    } in
    let back = steps-returned running_loop r rs refl (omega arith) in
    let ends = step-done (fresh l cs) finish p fits in
    rw
      (
        steps-append (fresh l []) (map called cs) (done finish ∷ map returned (r ∷ rs)),
        steps-called (fresh l []) cs,
        steps-cons (fresh l cs) (done finish) (map returned (r ∷ rs)),
        ends,
      )
      (unfold run_pending in rw back (simp append_assoc))

-- A whole turn with tools: while the loop awaits a turn with nothing pending, the model asks for
-- some calls that fit the budget, ends its turn, and as many results come back. Then the loop has
-- run each call once, in the order of asking, has appended the assistant's calls and all the
-- results to the conversation, and sends that conversation as the next turn.
pub tool_turn :
    (l : Loop) (c : ToolCall) (cs : List ToolCall) (finish : Text) (r : ToolCall × Text)
    (rs : List (ToolCall × Text))
    → l.state ≡ awaiting
    → l.pending ≡ []
    → l.answered ≡ []
    → pos (l.used + length (c ∷ cs)) ≤ℤ l.max_tools
    → length (r ∷ rs) ≡ length (c ∷ cs)
    → steps l (map called (c ∷ cs) ++ done finish ∷ map returned (r ∷ rs)) ≡ (
      record l {
        messages = l.messages ++ (call_message (c ∷ cs) ∷ map answer (r ∷ rs));
        used = l.used + length (c ∷ cs);
      },
      map run_tool (c ∷ cs)
          ++ send_turn (l.messages ++ (call_message (c ∷ cs) ∷ map answer (r ∷ rs))) ∷ [],
    )
tool_turn l c cs finish r rs s p a fits same =
    let whole = fresh_turn l (c ∷ cs) finish r rs (cc) fits same in
    rw (fresh_self l s p a, turned_self l (c ∷ cs) (map answer (r ∷ rs)) s p a) at whole
