-- ===== src/Examples/Runners.antt =====
-- pkg/agentloop/runner.go with a gateway that asks for a tool once and then answers.
use mathlib.Core.Path.{subst}
use leartech_go_common.Base.{
  ℕ, zero, suc, ◌≡◌, ◌⊎◌, refl, arith, map, Option, none, some, List, [], ◌∷◌, ◌++◌, codes, Text,
  text_eq, true, false,
}
use leartech_go_common.Base.Int.{ℤ, pos, add_int, wrap_int, ◌+ℤ◌}
use leartech_go_common.Base.Trim.{trim_space}
use leartech_go_common.Base.Results.{ok}
use leartech_go_common.Gateway.Stream.{StreamChunk, stream_text, stream_tool_call, stream_done}
use leartech_go_common.Agent.Loop.{
  step, Loop, Event, ToolCall, Message, Err, awaiting, idle, user_input, model_tool_call,
  model_done, model_error, new, steps, call_message, text_message,
}
use leartech_go_common.Agent.Loop.Orphan.{steps-orphaned}
use leartech_go_common.Agent.Tools.{new_registry, run, find}
use leartech_go_common.Agent.Checkpoint.{checkpoint}
use leartech_go_common.Agent.Runner.Wire.{to_wire}
use leartech_go_common.Agent.Runner.Marks.{to_wire-MarkedOnce, MarkedOnce, any_markable, plains}
use leartech_go_common.Agent.Runner.Ports.{Ports}
use leartech_go_common.Agent.Runner.Drive.{blank_event, drive, Driven}
use leartech_go_common.Agent.Runner.Orderly.{orderly}
use leartech_go_common.Agent.Runner.Adds.{AllOrderly}
use leartech_go_common.Agent.Runner.Quiet.{EndsIdle}
use leartech_go_common.Agent.Runner.Quiet.Ends.{drive-EndsIdle}
use leartech_go_common.Agent.Runner.Session.{
  Hooks, Read, line, interrupted, run_with_loop, RunEnd, first_turn, first_hash,
}
use leartech_go_common.Agent.Runner.Session.Chain.{EndsChained, run_with_loop-EndsChained}
use leartech_go_common.Agent.Runner.Session.Total.{Halts, run_with_loop-Halts}

-- The replies of the gateway, by the number of the request.
abbrev reply : ℕ → List StreamChunk
reply zero =
    stream_tool_call (record { id = codes "1"; name = codes "read_file"; arguments = codes "{}" })
    ∷ stream_done (codes "tool_calls")
    ∷ []
reply (suc n) = stream_text (codes "done") ∷ stream_done (codes "stop") ∷ []

abbrev toy_ports : Ports ℕ
toy_ports = record {
  model = codes "m";
  max_tokens = pos 100;
  tools = new_registry;
  encode_tools = λ r. codes "[]";
  render_calls = λ cs. codes "[]";
  quote = λ t. t;
  links = λ t. [];
  context_err = λ w. none;
  chat_stream = λ req w. (ok (reply w), suc w);
  write = λ t w. (none, w);
  ask_continue = none;
  on_usage = none;
  first_output = λ w. w;
  turn_started = λ w. w;
  highlight = λ t w. w;
  note = λ t w. w;
  tool_started = λ a b w. w;
  tool_finished = λ a b n t w. w;
  tool_links = λ ts w. w;
  record_action = λ a s w. w;
  record_tool_result = λ a b t w. w;
}

reply-orderly : (n : ℕ) → orderly (reply n) ≡ true
reply-orderly zero = refl
reply-orderly (suc n) = refl

toy_ports-AllOrderly : AllOrderly toy_ports
toy_ports-AllOrderly req w cs h =
    let same : reply w ≡ cs = cc in subst (λ c. orderly c ≡ true) same (reply-orderly w)

abbrev toy_write : Text → ℕ → Option Err × ℕ
toy_write b w = (none, w)

abbrev toy_hooks : Hooks ℕ
toy_hooks = record {
  sha256_hex = λ t. t;
  encode = λ c. some c.hash;
  on_boundary = some toy_write;
  intercept = none;
}

abbrev fresh : Loop
fresh = new (codes "system") (pos 10)

abbrev hello : Event
hello = record (blank_event user_input) { text = codes "hello" }

abbrev typed : List Read
typed = line (codes " hello ") ∷ interrupted ∷ line (codes "again") ∷ []

drive-EndsIdle_example :
    (fuel : ℕ) × (end : Loop × Driven ℕ) × (drive toy_ports fuel fresh hello 0 ≡ some end)
    × EndsIdle toy_ports (some end)
unfolding new
drive-EndsIdle_example =
    drive-EndsIdle toy_ports toy_ports-AllOrderly refl fresh hello 0 refl refl refl

run_with_loop-Halts_example :
    Halts (λ fuel. run_with_loop toy_ports toy_hooks fuel none fresh typed 0)
unfolding new
run_with_loop-Halts_example =
    run_with_loop-Halts toy_ports toy_hooks none fresh typed 0 toy_ports-AllOrderly refl refl refl

run_with_loop-EndsChained_example :
    EndsChained toy_hooks (pos 0) [] (run_with_loop toy_ports toy_hooks 20 none fresh typed 0)
unfolding first_turn first_hash
run_with_loop-EndsChained_example =
    run_with_loop-EndsChained toy_ports toy_hooks 20 none fresh typed 0 toy_write refl

abbrev turns_of : Option (RunEnd ℕ) → Option (List ℤ × List (Option Err))
turns_of none = none
turns_of (some (e, s)) = some (map (λ c. c.turn) s.written, s.failures)

-- The run above is over with 20 steps of fuel for each line. It writes a checkpoint for each line.
two_turns :
    turns_of (run_with_loop toy_ports toy_hooks 20 none fresh typed 0)
    ≡ some (pos 1 ∷ pos 2 ∷ [], [])
unfolding run_with_loop new add_int wrap_int trim_space codes drive step run find new_registry
    text_eq checkpoint ◌+ℤ◌
two_turns = refl

abbrev talk : List Message
talk =
    text_message (codes "system") (codes "s")
    ∷ text_message (codes "user") (codes "u")
    ∷ call_message []
    ∷ []

to_wire-MarkedOnce_example :
    ((any_markable talk ≡ false) × (to_wire (λ cs. []) talk ≡ plains (λ cs. []) talk))
    ⊎ MarkedOnce (λ cs. []) talk (to_wire (λ cs. []) talk)
to_wire-MarkedOnce_example = to_wire-MarkedOnce (λ cs. []) talk

abbrev list_call : ToolCall
list_call = record { id = codes "2"; name = codes "list_dir"; arguments = codes "{}" }

abbrev asked : Event
asked = record (blank_event model_tool_call) { tool_call = some list_call }

abbrev listening : Loop
listening = record fresh { state = awaiting }

steps-orphaned_example :
    ((steps listening (asked ∷ blank_event model_done ∷ blank_event model_error ∷ [])).0.state
      ≡ idle)
    × ((steps listening (asked ∷ blank_event model_done ∷ blank_event model_error ∷ [])).0.messages
        ≡ listening.messages ++ call_message (list_call ∷ []) ∷ [])
unfolding new
steps-orphaned_example =
    steps-orphaned listening list_call asked (blank_event model_done) (blank_event model_error) refl
      refl refl refl refl refl (ground arith)
