-- ===== src/Agent/Loop/Orphan.antt =====
-- An error after the end of a turn that asked for tools.
use leartech_go_common.Base.{◌+◌, ◌≡◌, refl, some, [], ◌∷◌, ◌++◌, false}
use leartech_go_common.Base.Int.{pos, ltb_ℤ}
use leartech_go_common.Agent.Loop.{
  Loop, ToolCall, Event, model_tool_call, model_done, model_error, idle, awaiting, call_message,
  steps, step,
}

-- When an error follows the end of a turn that asked for one call within the budget, as it does when
-- the stream breaks off between its `finish_reason` and its end marker, the loop is idle, and its
-- conversation ends in a message that asks for a call, without the result.
pub steps-orphaned :
    (l : Loop) (c : ToolCall) (call end error : Event)
    → l.state ≡ awaiting
    → l.pending ≡ []
    → call.kind ≡ model_tool_call
    → call.tool_call ≡ some c
    → end.kind ≡ model_done
    → error.kind ≡ model_error
    → ltb_ℤ l.max_tools (pos (l.used + 1)) ≡ false
    → ((steps l (call ∷ end ∷ error ∷ [])).0.state ≡ idle)
      × ((steps l (call ∷ end ∷ error ∷ [])).0.messages ≡ l.messages ++ call_message (c ∷ []) ∷ [])
unfolding steps step
steps-orphaned l c call end error a p k t d e b = rw (k, t, p, d, e, b) (refl, refl)
