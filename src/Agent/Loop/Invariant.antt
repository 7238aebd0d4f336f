-- ===== src/Agent/Loop/Invariant.antt =====
-- The states of the loop: what is pending and answered in each, after any events.
use leartech_go_common.Base.{◌<◌, ◌≡◌, refl, List, [], ◌∷◌, arith, Text, length, length-append}
use leartech_go_common.Base.Int.{ℤ}
use leartech_go_common.Agent.Loop.{
  Loop, Event, State, idle, awaiting, running, asking, new, step, steps, ToolCall, Message,
}

-- Idle or awaiting a turn, no result is held back. While tools run or the budget question is
-- outstanding, at least one pending call has no result.
abbrev pub Settled : State → List ToolCall → List Message → Type 0
Settled idle p a = a ≡ []
Settled awaiting p a = a ≡ []
Settled running p a = length a < length p
Settled asking p a = length a < length p

abbrev pub IsSettled : Loop → Type 0
IsSettled l = Settled l.state l.pending l.answered

pub step-IsSettled : (l : Loop) (e : Event) → IsSettled l → IsSettled (step l e).0
unfolding step
step-IsSettled l e h = grind (arith, length-append)

steps-IsSettled : (l : Loop) (es : List Event) → IsSettled l → IsSettled (steps l es).0
unfolding steps
steps-IsSettled l [] h = h
steps-IsSettled l (e ∷ es) h = steps-IsSettled (step l e).0 es (step-IsSettled l e h)

-- Whatever events a new loop is given, in whatever order, it holds no result back while it is idle
-- or awaiting a turn, and while tools run or the budget question is outstanding at least one
-- pending call has no result yet.
pub new-steps-IsSettled :
    (system : Text) (max_tools : ℤ) (es : List Event)
    → IsSettled (steps (new system max_tools) es).0
unfolding new
new-steps-IsSettled system max_tools es = steps-IsSettled (new system max_tools) es refl
