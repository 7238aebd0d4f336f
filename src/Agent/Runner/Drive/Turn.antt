-- ===== src/Agent/Runner/Drive/Turn.antt =====
-- runner.go: the events of a streamed turn (`send`, `endsTheTurn`), and the texts that `drive` shows.
use leartech_go_common.Base.{
  Bool, true, false, not, Option, none, some, List, [], ◌∷◌, ◌++◌, Text, codes, decimal, text_eq,
  ◌==◌, if◌then◌else◌,
}
use leartech_go_common.Base.Int.{pos, show_int}
use leartech_go_common.Gateway.Stream.{
  StreamChunk, stream_text, stream_reasoning, stream_tool_call, stream_done, stream_error,
  stream_usage, stream_err_text,
}
use leartech_go_common.Agent.Loop.{
  Err, budget_stop, other_error, Event, EventKind, model_text, model_reasoning, model_tool_call,
  model_done, model_error, tool_result, budget_answer, user_input, interrupt,
}

abbrev pub blank_event : EventKind → Event
blank_event k = record {
  kind = k;
  text = [];
  tool_call = none;
  result = [];
  result_ok = false;
  finish = [];
  err = none;
  allow = false;
  grant = pos 0;
}

-- What a chunk becomes. A usage chunk becomes no event.
unfoldable pub chunk_events : StreamChunk → List Event
unfolding stream_err_text
chunk_events (stream_text t) = record (blank_event model_text) { text = t } ∷ []
chunk_events (stream_reasoning t) = record (blank_event model_reasoning) { text = t } ∷ []
chunk_events (stream_tool_call c) =
    record (blank_event model_tool_call) {
      tool_call = some (record { id = c.id; name = c.name; arguments = c.arguments });
    }
    ∷ []
chunk_events (stream_done f) = record (blank_event model_done) { finish = f } ∷ []
chunk_events (stream_error e) =
    record (blank_event model_error) { err = some (other_error (stream_err_text e)) } ∷ []
chunk_events (stream_usage u) = []

-- `e.Kind == ModelDone || e.Kind == ModelError`
unfoldable pub is_terminal : EventKind → Bool
is_terminal model_done = true
is_terminal model_error = true
is_terminal user_input = false
is_terminal model_text = false
is_terminal model_reasoning = false
is_terminal model_tool_call = false
is_terminal tool_result = false
is_terminal interrupt = false
is_terminal budget_answer = false

unfoldable pub ends_the_turn : List Event → Bool
unfolding is_terminal
ends_the_turn [] = false
ends_the_turn (e ∷ es) = let rest = ends_the_turn es in if is_terminal e.kind then true else rest

unfoldable pub all_events : List StreamChunk → List Event
unfolding chunk_events
all_events [] = []
all_events (c ∷ cs) = chunk_events c ++ all_events cs

-- The events of a turn, ended if the stream did not end it.
unfoldable pub turn_events : List StreamChunk → List Event
unfolding all_events ends_the_turn codes
turn_events cs =
    let es = all_events cs in
    if not (ends_the_turn es)
    then es ++ record (blank_event model_done) { finish = codes "incomplete" } ∷ []
    else es

unfoldable pub truncation_reason : Text → Text
truncation_reason finish =
    if text_eq finish (codes "length")
    then codes "hit the reply token cap"
    else if text_eq finish (codes "incomplete")
    then codes "the stream ended early"
    else finish

unfoldable pub truncation_warning : Text → Text
unfolding truncation_reason
truncation_warning finish =
    codes "the reply was cut off before it finished ("
    ++ (truncation_reason finish
        ++ codes
            ") — it is not a complete answer. Raise --max-tokens, or run `ship-proven shell compact` if the session has grown large, then resume.")

-- `%v` of an error.
unfoldable pub err_text : Option Err → Text
err_text none = codes "<nil>"
err_text (some (other_error t)) = t
err_text (some (budget_stop n m)) =
    codes "stopped: this turn would make "
    ++ (decimal n
        ++ (codes " more tool calls and the budget for one input is "
            ++ (show_int m
                ++ codes
                    ". Ask again to continue: stopped: the tool budget for one input was reached")))

-- `strings.HasSuffix(t, "\n")`
unfoldable pub ends_in_newline : Text → Bool
ends_in_newline [] = false
ends_in_newline (c ∷ []) = c == 0x0A
ends_in_newline (c ∷ d ∷ t) = ends_in_newline (d ∷ t)
