-- ===== src/Agent/Runner/Ports.antt =====
-- runner.go: what the runner is connected to. `W` is the state of everything outside.
use leartech_go_common.Base.{ℕ, Bool, Option, List, Text}
use leartech_go_common.Base.Int.{ℤ}
use leartech_go_common.Base.Results.{Result}
use leartech_go_common.Agent.Loop.{ToolCall, Err, Action, State}
use leartech_go_common.Agent.Tools.{Registry}
use leartech_go_common.Agent.Runner.Wire.{ChatRequest}
use leartech_go_common.Gateway.Stream.{StreamChunk, ChatUsage}

-- The fields of `Runner`, with the methods of its UI, its transcript and its context. `encode`
-- marshals the tool definitions and `render_calls` the calls (a runner has a registry); `quote` is
-- `%q`; `links` is `PullRequestLinks`.
pub record Ports (W : Type 0) : Type 0 where
  pub model : Text
  pub max_tokens : ℤ
  pub tools : Registry W
  pub encode_tools : Registry W → Text
  pub render_calls : List ToolCall → Text
  pub quote : Text → Text
  pub links : Text → List Text
  pub context_err : W → Option Err
  pub chat_stream : ChatRequest → W → Result Err (List StreamChunk) × W
  pub write : Text → W → Option Err × W
  pub ask_continue : Option (ℕ → ℕ → ℤ → W → ℤ × W)
  pub on_usage : Option (ChatUsage → W → W)
  pub first_output : W → W
  pub turn_started : W → W
  pub highlight : Text → W → W
  pub note : Text → W → W
  pub tool_started : Text → Text → W → W
  pub tool_finished : Text → Bool → ℕ → Text → W → W
  pub tool_links : List Text → W → W
  pub record_action : Action → State → W → W
  pub record_tool_result : Text → Bool → Text → W → W
