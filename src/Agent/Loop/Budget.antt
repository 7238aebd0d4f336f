-- ===== src/Agent/Loop/Budget.antt =====
-- How many tools the loop runs: each call that is dispatched is counted, and without a grant from
-- the operator the count of one input stays within the ceiling.
use leartech_go_common.Base.{
  ℕ, suc, ◌+◌, ◌≤◌, ◌≡◌, refl, ◌≢◌, true, List, [], ◌∷◌, ◌++◌, map, arith, Text, length, All,
  if◌then◌else◌,
}
use leartech_go_common.Base.Int.{ℤ, pos, ltb_ℤ, ◌≤ℤ◌, add_int}
use leartech_go_common.Agent.Loop.{
  Loop, Event, asking, Message, ToolCall, Action, run_tool, new, step, steps, user_input,
  budget_answer, granted,
}

-- The tools that a list of actions runs.
abbrev pub runs : List Action → ℕ
runs [] = 0
runs (run_tool c ∷ out) = suc (runs out)
runs (a ∷ out) = runs out

runs-append : (xs ys : List Action) → runs (xs ++ ys) ≡ runs xs + runs ys
runs-append [] ys = omega arith
runs-append (run_tool c ∷ xs) ys = omega (arith, runs-append xs ys)
runs-append (_ ∷ xs) ys = runs-append xs ys

pub runs-map : (cs : List ToolCall) → runs (map run_tool cs) ≡ length cs
runs-map [] = refl
runs-map (c ∷ cs) = omega (arith, runs-map cs)

-- An event that neither starts an input nor answers the budget question.
abbrev pub IsUngranted : Event → Type 0
IsUngranted e = (e.kind ≢ user_input) × (e.kind ≢ budget_answer)

step-used :
    (l : Loop) (e : Event) → e.kind ≢ user_input → (step l e).0.used ≡ l.used + runs (step l e).1
unfolding step
step-used l e h = ground (arith, runs-map l.pending)

step-within :
    (l : Loop) (e : Event)
    → IsUngranted e
    → pos l.used ≤ℤ l.max_tools
    → (pos (step l e).0.used ≤ℤ (step l e).0.max_tools) × ((step l e).0.max_tools ≡ l.max_tools)
unfolding step
step-within l e h w = ground arith

-- For any events that neither start an input nor answer the budget question, the calls made so
-- far and the tools that the events make the loop run stay within the ceiling together, if the
-- calls so far do.
pub runs-le-max_tools :
    (l : Loop) (es : List Event)
    → All IsUngranted es
    → pos l.used ≤ℤ l.max_tools
    → pos (l.used + runs (steps l es).1) ≤ℤ l.max_tools
unfolding steps
runs-le-max_tools l [] h w = omega arith
runs-le-max_tools l (e ∷ es) (h, hs) w =
    let (w', same) = step-within l e h w in
    let later : pos ((step l e).0.used + runs (steps (step l e).0 es).1) ≤ℤ l.max_tools =
      rw same at (runs-le-max_tools (step l e).0 es hs w') in
    omega (arith, later, step-used l e h.0, runs-append (step l e).1 (steps (step l e).0 es).1)

-- A yes to the budget question runs every pending call, however small the grant: the ceiling is
-- raised by the grant, or by one budget's worth if there is none, and not compared again.
pub grant_runs_all :
    (l : Loop) (e : Event)
    → l.state ≡ asking
    → e.kind ≡ budget_answer
    → e.allow ≡ true
    → ((step l e).1 ≡ map run_tool l.pending)
      × ((step l e).0.used ≡ l.used + length l.pending)
      × ((step l e).0.max_tools
          ≡ add_int l.max_tools (if ltb_ℤ (pos 0) e.grant then e.grant else granted l))
unfolding step
grant_runs_all l e s k a = ground arith

-- The calls that a conversation records.
abbrev pub calls_in : List Message → ℕ
calls_in [] = 0
calls_in (m ∷ ms) = length m.tool_calls + calls_in ms

calls_in-append : (xs ys : List Message) → calls_in (xs ++ ys) ≡ calls_in xs + calls_in ys
calls_in-append [] ys = omega arith
calls_in-append (m ∷ xs) ys = omega (arith, calls_in-append xs ys)

step-used-le :
    (l : Loop) (e : Event)
    → l.used ≤ calls_in l.messages
    → (step l e).0.used ≤ calls_in (step l e).0.messages
unfolding step
step-used-le l e h = grind (arith, calls_in-append)

steps-used-le :
    (l : Loop) (es : List Event)
    → l.used ≤ calls_in l.messages
    → (steps l es).0.used ≤ calls_in (steps l es).0.messages
unfolding steps
steps-used-le l [] h = h
steps-used-le l (e ∷ es) h = steps-used-le (step l e).0 es (step-used-le l e h)

-- After any events a new loop has counted no more calls than its conversation records, so the
-- counter is bounded by the size of the conversation that is held in memory.
pub used-le-calls_in :
    (system : Text) (max_tools : ℤ) (es : List Event)
    → (steps (new system max_tools) es).0.used
      ≤ calls_in (steps (new system max_tools) es).0.messages
unfolding new
used-le-calls_in system max_tools es = steps-used-le (new system max_tools) es (omega arith)
