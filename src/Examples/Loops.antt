-- ===== src/Examples/Loops.antt =====
-- pkg/agentloop/loop.go at concrete conversations.
use leartech_go_common.Base.{◌+◌, ◌≡◌, refl, List, [], ◌∷◌, ◌++◌, map, codes, arith, true}
use leartech_go_common.Base.Int.{pos, ◌≤ℤ◌}
use leartech_go_common.Agent.Loop.{
  Loop, Event, ToolCall, awaiting, asking, user_input, budget_answer, new, steps, run_tool,
  call_message, send_turn,
}
use leartech_go_common.Agent.Loop.Budget.{runs, runs-le-max_tools}
use leartech_go_common.Agent.Loop.History.{Extends, steps-Extends}
use leartech_go_common.Agent.Loop.Invariant.{IsSettled, new-steps-IsSettled}
use leartech_go_common.Agent.Loop.Turn.{blank, called, done, returned, answer, tool_turn}

abbrev read_call : ToolCall
read_call = record { id = codes "1"; name = codes "read_file"; arguments = codes "{}" }

abbrev list_call : ToolCall
list_call = record { id = codes "2"; name = codes "list_dir"; arguments = codes "{}" }

abbrev ask_user : Event
ask_user = record (blank user_input) { text = codes "hello" }

abbrev say_yes : Event
say_yes = record (blank budget_answer) { allow = true }

abbrev two_calls : List Event
two_calls = called read_call ∷ called list_call ∷ done (codes "stop") ∷ []

-- A loop that awaits its first turn, with a ceiling of two calls, and one that asks about its third
-- call.
abbrev waiting : Loop
waiting = record (new (codes "system") (pos 2)) { state = awaiting }

abbrev questioned : Loop
questioned = record (new (codes "system") (pos 1)) {
  state = asking;
  pending = read_call ∷ list_call ∷ [];
}

runs-le-max_tools_example :
    pos (waiting.used + runs (steps waiting two_calls).1) ≤ℤ waiting.max_tools
unfolding new
runs-le-max_tools_example = runs-le-max_tools waiting two_calls (ground arith) (ground arith)

new-steps-IsSettled_example : IsSettled (steps (new [] (pos 1)) (ask_user ∷ two_calls)).0
new-steps-IsSettled_example = new-steps-IsSettled [] (pos 1) (ask_user ∷ two_calls)

tool_turn_example :
    steps waiting (
      map called (read_call ∷ list_call ∷ [])
      ++ done (codes "stop") ∷ map returned ((read_call, codes "a") ∷ (list_call, codes "b") ∷ []))
    ≡ (
      record waiting {
        messages =
            waiting.messages
            ++ (call_message (read_call ∷ list_call ∷ [])
                ∷ map answer ((read_call, codes "a") ∷ (list_call, codes "b") ∷ []));
        used = waiting.used + 2;
      },
      map run_tool (read_call ∷ list_call ∷ [])
          ++ send_turn (
              waiting.messages
              ++ (call_message (read_call ∷ list_call ∷ [])
                  ∷ map answer ((read_call, codes "a") ∷ (list_call, codes "b") ∷ [])))
            ∷ [],
    )
unfolding new
tool_turn_example =
    tool_turn waiting read_call (list_call ∷ []) (codes "stop") (read_call, codes "a")
      ((list_call, codes "b") ∷ []) refl refl refl (ground arith) refl

steps-Extends_example : Extends waiting.messages (steps waiting two_calls).0.messages
steps-Extends_example = steps-Extends waiting two_calls
