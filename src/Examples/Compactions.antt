-- ===== src/Examples/Compactions.antt =====
-- pkg/agentloop/compact.go at a concrete conversation: two turns, of which the first has a tool result.
use leartech_go_common.Base.{◌≡◌, ◌≢◌, refl, inr, List, [], ◌∷◌, codes, some, true, arith, text_eq}
use leartech_go_common.Base.Int.{pos}
use leartech_go_common.Base.Results.{ok}
use leartech_go_common.Agent.Loop.{ToolCall, Message, text_message, call_message, result_message}
use leartech_go_common.Agent.Checkpoint.{Checkpoint, checkpoint_version, sealed}
use leartech_go_common.Agent.Compact.Select.{tail_start, user_at}
use leartech_go_common.Agent.Compact.Run.{CompactOptions, compacted, compact}
use leartech_go_common.Agent.Compact.Shape.{Trims, compacted-Trims}
use leartech_go_common.Agent.Compact.Protect.{content_at, compacted_protects}
use leartech_go_common.Agent.Compact.Turns.{users_from}
use leartech_go_common.Agent.Compact.Chain.{IsSealed, compact_chained, compact_succeeds}
use leartech_go_common.Examples.Checkpoints.{same_text}

abbrev one_call : ToolCall
one_call = record { id = codes "1"; name = codes "ls"; arguments = codes "{}" }

abbrev long_talk : List Message
long_talk =
    text_message (codes "user") (codes "list")
    ∷ call_message (one_call ∷ [])
    ∷ result_message one_call (codes "a long listing of many files")
    ∷ text_message (codes "user") (codes "thanks")
    ∷ []

abbrev small : CompactOptions
small = record {
  target_chars = pos 20;
  keep_head_turns = pos 0;
  keep_tail_turns = pos 1;
  elide_tool_call_args = true;
  stub = codes "-";
}

abbrev source : Checkpoint
source = sealed same_text (pos 4) (codes "before") long_talk

abbrev target : Checkpoint
target = sealed same_text source.turn source.hash (compacted small long_talk).0

tail_at : tail_start long_talk (pos 1) ≡ 3
unfolding tail_start user_at text_eq codes
tail_at = refl

compacted_protects_example : content_at (compacted small long_talk).0 3 ≡ content_at long_talk 3
compacted_protects_example = compacted_protects small long_talk 3 (inr (ground (arith, tail_at)))

compacted-Trims_example : Trims long_talk (compacted small long_talk).0
compacted-Trims_example = compacted-Trims small long_talk

two_users : users_from 0 0 long_talk ≡ 2
unfolding users_from text_eq codes
two_users = refl

compact_succeeds_example :
    compact same_text (λ c. some []) (λ b. some target) (some source) small
    ≡ ok (
      sealed same_text source.turn source.hash (compacted small source.messages).0,
      (compacted small source.messages).1,
    )
unfolding sealed
compact_succeeds_example =
    compact_succeeds same_text (λ c. some []) (λ b. some target) source small [] refl (λ e. cc) refl
      refl

compacts_source :
    compact same_text (λ c. some []) (λ b. some target) (some source) small
    ≡ ok (target, (compacted small source.messages).1)
unfolding sealed
compacts_source =
    compact_succeeds same_text (λ c. some []) (λ b. some target) source small [] refl (λ e. cc) refl
      refl

compact_chained_example :
    (target.turn ≡ source.turn)
    × (target.prev_hash ≡ source.hash)
    × (target.version ≡ checkpoint_version)
    × IsSealed same_text (λ c. some []) (λ b. some target) target
    × (target.messages ≡ (compacted small source.messages).0)
    × ((compacted small source.messages).1 ≡ (compacted small source.messages).1)
    × (source.version ≡ checkpoint_version)
    × (source.messages ≢ [])
compact_chained_example =
    compact_chained same_text (λ c. some []) (λ b. some target) source small target
      (compacted small source.messages).1 compacts_source
