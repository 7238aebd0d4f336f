-- ===== src/Agent/Compact/Run.antt =====
-- compact.go: `Compact`.
use leartech_go_common.Base.{
  ℕ, Bool, true, not, ◌||◌, Option, none, some, List, [], Text, is_empty, if◌then◌else◌,
}
use leartech_go_common.Base.Int.{ℤ, pos, leb_ℤ, eq_ℤ}
use leartech_go_common.Agent.Loop.{Message}
use leartech_go_common.Agent.Checkpoint.{
  Checkpoint, CheckpointError, checkpoint_version, sealed, restore_checkpoint,
}
use leartech_go_common.Base.Results.{Result, ok, err, ◌>>=◌}
use leartech_go_common.Agent.Loop.{Loop}
use leartech_go_common.Agent.Compact.Weigh.{conversation_chars}
use leartech_go_common.Agent.Compact.Select.{eligible_tool_results, sort_heaviest}
use leartech_go_common.Agent.Compact.Passes.{Pass, second_pass, elide_results, default_compact_stub}

pub record CompactOptions : Type 0 where
  pub target_chars : ℤ
  pub keep_head_turns : ℤ
  pub keep_tail_turns : ℤ
  pub elide_tool_call_args : Bool
  pub stub : Text

pub record CompactReport : Type 0 where
  pub before_chars : ℕ
  pub after_chars : ℕ
  pub elided : ℕ
  pub fit : Bool

pub data CompactError : Type 0 where
  no_checkpoint no_messages not_marshalled : CompactError
  wrong_version : ℤ → CompactError
  not_restored : CheckpointError → CompactError

unfoldable pub start_pass : List Message → Pass
unfolding conversation_chars
start_pass msgs = record {
  msgs = msgs;
  cur = pos (conversation_chars msgs);
  elided_call_ids = [];
  elided = 0;
}

-- Both passes over a conversation that is too large.
unfoldable pub shrink : CompactOptions → List Message → Pass
shrink opt msgs =
    let stub = if is_empty opt.stub then default_compact_stub else opt.stub in
    let eligible =
      sort_heaviest msgs (eligible_tool_results msgs opt.keep_head_turns opt.keep_tail_turns) in
    second_pass opt.elide_tool_call_args opt.target_chars
      (elide_results opt.target_chars stub eligible (start_pass msgs))

-- The conversation that is returned, and its report.
unfoldable pub compacted : CompactOptions → List Message → List Message × CompactReport
compacted opt msgs =
    let before = conversation_chars msgs in
    let p = shrink opt msgs in
    if leb_ℤ opt.target_chars (pos 0) || leb_ℤ (pos before) opt.target_chars
    then (msgs, record { before_chars = before; after_chars = before; elided = 0; fit = true })
    else (
      p.msgs,
      record {
        before_chars = before;
        after_chars = conversation_chars p.msgs;
        elided = p.elided;
        fit = leb_ℤ (pos (conversation_chars p.msgs)) opt.target_chars;
      },
    )

module _ (sha256_hex : Text → Text) (encode : Checkpoint → Option Text)
    (decode : Text → Option Checkpoint) where
  check_restores : Result CheckpointError Loop → Checkpoint → Result CompactError Checkpoint
  check_restores (ok l) c = ok c
  check_restores (err e) c = err (not_restored e)

  unfoldable pub rechained : Checkpoint → List Message → Result CompactError Checkpoint
  unfolding sealed check_restores restore_checkpoint
  rechained src msgs =
      let c = sealed sha256_hex src.turn src.hash msgs in
      elim (encode c) [
        | none ↦ err not_marshalled
        | some b ↦ check_restores (restore_checkpoint decode b (pos 0)) c
      ]

  unfoldable pub compact :
      Option Checkpoint → CompactOptions → Result CompactError (Checkpoint × CompactReport)
  compact none opt = err no_checkpoint
  compact (some src) opt =
      let (msgs, report) = compacted opt src.messages in
      if not (eq_ℤ src.version checkpoint_version)
      then err (wrong_version src.version)
      else if is_empty src.messages
      then err no_messages
      else (do c ← rechained src msgs; ok (c, report))
