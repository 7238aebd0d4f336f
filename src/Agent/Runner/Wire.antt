-- ===== src/Agent/Runner/Wire.antt =====
-- runner.go: the conversation as it goes over the wire (`toWire`), with the types of
-- pkg/aigateway/api.go.
use leartech_go_common.Base.{
  ℕ, suc, Bool, false, ◌||◌, Option, none, some, List, [], ◌∷◌, Text, codes, text_eq, is_empty,
  ◌==◌, if◌then◌else◌,
}
use leartech_go_common.Base.Int.{ℤ}
use leartech_go_common.Agent.Loop.{ToolCall, Message}

-- A text block, `ephemeral` where it carries the cache mark.
pub record ContentBlock : Type 0 where
  pub kind : Text
  pub text : Text
  pub cache_control : Option Text

-- `tool_calls` is raw JSON.
pub record ChatRequestMessage : Type 0 where
  pub role : Text
  pub content : Text
  pub blocks : List ContentBlock
  pub tool_calls : Text
  pub tool_call_id : Text

pub record ChatRequest : Type 0 where
  pub model : Text
  pub messages : List ChatRequestMessage
  pub max_tokens : ℤ
  pub tools : Text

-- The index of the last message that can carry the mark, in a conversation that starts at `i`.
unfoldable pub last_markable_from : ℕ → List Message → Option ℕ
last_markable_from i [] = none
last_markable_from i (m ∷ ms) = elim (last_markable_from (suc i) ms) [
  | some j ↦ some j
  | none ↦ if is_empty m.content || text_eq m.role (codes "tool") then none else some i
]

-- `lastMarkable`, where -1 is `none`.
unfoldable pub last_markable : List Message → Option ℕ
unfolding last_markable_from
last_markable ms = last_markable_from 0 ms

-- `i == mark`
unfoldable pub is_mark : ℕ → Option ℕ → Bool
is_mark i none = false
is_mark i (some mark) = i == mark

-- `renderCalls` is a JSON text.
unfoldable pub plain_message : (List ToolCall → Text) → Message → ChatRequestMessage
plain_message render_calls m = record {
  role = m.role;
  content = m.content;
  blocks = [];
  tool_calls = if is_empty m.tool_calls then [] else render_calls m.tool_calls;
  tool_call_id = m.tool_call_id;
}

unfoldable pub marked_message : (List ToolCall → Text) → Message → ChatRequestMessage
unfolding plain_message
marked_message render_calls m = record (plain_message render_calls m) {
  content = [];
  blocks =
      record { kind = codes "text"; text = m.content; cache_control = some (codes "ephemeral") }
      ∷ [];
}

-- The loop of `toWire` over the messages from index `i` on.
unfoldable pub to_wire_from :
    (List ToolCall → Text) → Option ℕ → ℕ → List Message → List ChatRequestMessage
unfolding is_mark plain_message marked_message
to_wire_from render_calls mark i [] = []
to_wire_from render_calls mark i (m ∷ ms) =
    let rest = to_wire_from render_calls mark (suc i) ms in
    (if is_mark i mark then marked_message render_calls m else plain_message render_calls m) ∷ rest

unfoldable pub to_wire : (List ToolCall → Text) → List Message → List ChatRequestMessage
unfolding last_markable to_wire_from
to_wire render_calls ms = to_wire_from render_calls (last_markable ms) 0 ms
