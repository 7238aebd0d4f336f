-- ===== src/Agent/Checkpoint.antt =====
-- pkg/agentloop/checkpoint.go: the conversation at a turn boundary, saved and restored. The digest
-- (`sha256`, in hexadecimal) and the JSON library are parameters. `encode` may fail, since a tool
-- call's raw arguments need not be JSON.
pub mod Resume
pub mod Digest
use leartech_go_common.Base.{
  Bool, true, false, Option, none, some, List, [], ◌∷◌, ◌++◌, Text, codes, is_empty, not,
  if◌then◌else◌,
}
use leartech_go_common.Base.Int.{ℤ, pos, ltb_ℤ, show_int, eq_ℤ}
use leartech_go_common.Base.Results.{Result, ok, err}
use leartech_go_common.Agent.Loop.{ToolCall, Message, State, idle, awaiting, running, asking, Loop}

pub record Checkpoint : Type 0 where
  pub version : ℤ
  pub turn : ℤ
  pub prev_hash : Text
  pub hash : Text
  pub messages : List Message

abbrev pub checkpoint_version : ℤ
checkpoint_version = pos 1

pub data CheckpointError : Type 0 where
  mid_turn : State → CheckpointError
  not_json : CheckpointError
  wrong_version : ℤ → CheckpointError
  no_messages : CheckpointError

abbrev unit_separator : Text
unit_separator = 0x1F ∷ []

abbrev record_separator : Text
record_separator = 0x1E ∷ []

unfoldable pub calls_key : List ToolCall → Text
calls_key [] = []
calls_key (tc ∷ tcs) = tc.id ++ (unit_separator ++ (tc.name ++ (record_separator ++ calls_key tcs)))

unfoldable pub messages_key : List Message → Text
unfolding calls_key
messages_key [] = []
messages_key (m ∷ ms) =
    m.role
    ++ (unit_separator
        ++ (m.content
            ++ (unit_separator
                ++ (m.tool_call_id
                    ++ (unit_separator
                        ++ (b'['
                            ∷ (calls_key m.tool_calls
                                ++ (b']' ∷ (record_separator ++ messages_key ms)))))))))

module _ (sha256_hex : Text → Text) where
  unfoldable pub compute_hash : Checkpoint → Text
  unfolding messages_key
  compute_hash c =
      sha256_hex (show_int c.turn ++ (0 ∷ (c.prev_hash ++ (0 ∷ messages_key c.messages))))

  -- A checkpoint with its digest filled in.
  unfoldable pub sealed : ℤ → Text → List Message → Checkpoint
  unfolding compute_hash
  sealed turn prev_hash messages =
      let c : Checkpoint = record {
        version = checkpoint_version;
        turn = turn;
        prev_hash = prev_hash;
        hash = [];
        messages = messages;
      } in
      record c { hash = compute_hash c }

  unfoldable pub checkpoint_at : State → Loop → ℤ → Text → Result CheckpointError Checkpoint
  unfolding sealed
  checkpoint_at idle l turn prev_hash = ok (sealed turn prev_hash l.messages)
  checkpoint_at awaiting l turn prev_hash = err (mid_turn awaiting)
  checkpoint_at running l turn prev_hash = err (mid_turn running)
  checkpoint_at asking l turn prev_hash = err (mid_turn asking)

  -- `Loop.Checkpoint`
  unfoldable pub checkpoint : Loop → ℤ → Text → Result CheckpointError Checkpoint
  unfolding checkpoint_at
  checkpoint l turn prev_hash = checkpoint_at l.state l turn prev_hash

  unfoldable pub checkpoint_chained_from :
      Loop → Option Checkpoint → ℤ → Result CheckpointError Checkpoint
  unfolding checkpoint
  checkpoint_chained_from l none turn = checkpoint l turn []
  checkpoint_chained_from l (some restored) turn = checkpoint l turn restored.hash

-- What `RestoreCheckpoint` builds from the decoded checkpoint.
unfoldable pub restored_loop : List Message → ℤ → Loop
restored_loop messages max_tools = record {
  state = idle;
  messages = messages;
  pending = [];
  answered = [];
  max_tools = max_tools;
  used = 0;
  text_shown_this_turn = false;
  budget = max_tools;
}

unfoldable pub restore_decoded : Option Checkpoint → ℤ → Result CheckpointError Loop
unfolding restored_loop
restore_decoded none max_tools = err not_json
restore_decoded (some c) max_tools =
    if not (eq_ℤ c.version checkpoint_version)
    then err (wrong_version c.version)
    else if is_empty c.messages
    then err no_messages
    else ok (restored_loop c.messages max_tools)

unfoldable pub restore_checkpoint :
    (Text → Option Checkpoint) → Text → ℤ → Result CheckpointError Loop
unfolding restore_decoded
restore_checkpoint decode b max_tools = restore_decoded (decode b) max_tools
