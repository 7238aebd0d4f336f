-- ===== src/Agent/Checkpoint/Digest.antt =====
-- What the digest of a checkpoint covers, and what it leaves out.
use leartech_go_common.Base.{◌≡◌, refl, List, [], ◌∷◌, Text, map}
use leartech_go_common.Agent.Loop.{ToolCall, Message}
use leartech_go_common.Agent.Checkpoint.{Checkpoint, calls_key, messages_key, compute_hash}

abbrev pub set_arguments : (ToolCall → Text) → ToolCall → ToolCall
set_arguments f tc = record tc { arguments = f tc }

abbrev pub with_arguments : (ToolCall → Text) → Message → Message
with_arguments f m = record m { tool_calls = map (set_arguments f) m.tool_calls }

calls_key-map :
    (f : ToolCall → Text) (tcs : List ToolCall)
    → calls_key (map (set_arguments f) tcs) ≡ calls_key tcs
unfolding calls_key
calls_key-map f [] = refl
calls_key-map f (tc ∷ tcs) = rw (calls_key-map f tcs)

messages_key-map :
    (f : ToolCall → Text) (ms : List Message)
    → messages_key (map (with_arguments f) ms) ≡ messages_key ms
unfolding messages_key
messages_key-map f [] = refl
messages_key-map f (m ∷ ms) = rw (calls_key-map f m.tool_calls, messages_key-map f ms)

-- The digest does not cover the arguments of the tool calls: rewriting every one of them, in any
-- way, leaves the digest of the checkpoint as it was.
pub compute_hash-with_arguments :
    (sha256_hex : Text → Text) (f : ToolCall → Text) (c : Checkpoint)
    → compute_hash sha256_hex (record c { messages = map (with_arguments f) c.messages })
      ≡ compute_hash sha256_hex c
unfolding compute_hash
compute_hash-with_arguments sha256_hex f c = rw (messages_key-map f c.messages)
