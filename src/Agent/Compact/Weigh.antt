-- ===== src/Agent/Compact/Weigh.antt =====
-- compact.go: the size of a message and of a conversation.
use leartech_go_common.Base.{ℕ, ◌+◌, ◌/◌, Option, none, some, List, [], ◌∷◌, length}
use leartech_go_common.Agent.Loop.{ToolCall, Message}
use leartech_go_common.Agent.Checkpoint.{Checkpoint}

unfoldable pub calls_chars : List ToolCall → ℕ
calls_chars [] = 0
calls_chars (tc ∷ tcs) = length tc.id + length tc.name + length tc.arguments + calls_chars tcs

unfoldable pub message_chars : Message → ℕ
unfolding calls_chars
message_chars m = length m.content + length m.tool_call_id + calls_chars m.tool_calls

unfoldable pub conversation_chars : List Message → ℕ
unfolding message_chars
conversation_chars [] = 0
conversation_chars (m ∷ ms) = message_chars m + conversation_chars ms

unfoldable pub estimate_tokens : Option Checkpoint → ℕ
unfolding conversation_chars
estimate_tokens none = 0
estimate_tokens (some c) = conversation_chars c.messages / 4
