-- ===== src/Agent/Compact/Chain.antt =====
-- The checkpoint that `Compact` returns: chained onto its source, and there whenever it can be.
use mathlib.Core.Path.{subst}
use leartech_go_common.Base.{◌≡◌, ◌≢◌, refl, sym, Option, some, List, [], ◌∷◌, Text, arith}
use leartech_go_common.Base.Int.{ℤ}
use leartech_go_common.Base.Results.{ok}
use leartech_go_common.Agent.Loop.{Message}
use leartech_go_common.Agent.Checkpoint.{Checkpoint, checkpoint_version, sealed, compute_hash}
use leartech_go_common.Agent.Compact.Run.{
  CompactOptions, CompactReport, compacted, rechained, compact,
}
use leartech_go_common.Agent.Compact.Shape.{Trims, compacted-Trims}

module _ (sha256_hex : Text → Text) (encode : Checkpoint → Option Text)
    (decode : Text → Option Checkpoint) where
  -- A checkpoint that carries its own digest.
  abbrev pub IsSealed : Checkpoint → Type 0
  IsSealed c = c.hash ≡ compute_hash sha256_hex c

  rechained-sealed :
      (src : Checkpoint) (ms : List Message) (c : Checkpoint)
      → rechained sha256_hex encode decode src ms ≡ ok c
      → c ≡ sealed sha256_hex src.turn src.hash ms
  unfolding rechained
  rechained-sealed src ms c h = ground arith

  sealed-IsSealed :
      (turn : ℤ) (prev : Text) (ms : List Message) → IsSealed (sealed sha256_hex turn prev ms)
  unfolding sealed compute_hash
  sealed-IsSealed turn prev ms = refl

  compact_inversion :
      (src : Checkpoint) (opt : CompactOptions) (c : Checkpoint) (report : CompactReport)
      → compact sha256_hex encode decode (some src) opt ≡ ok (c, report)
      → (rechained sha256_hex encode decode src (compacted opt src.messages).0 ≡ ok c)
        × (report ≡ (compacted opt src.messages).1)
        × (src.version ≡ checkpoint_version)
        × (src.messages ≢ [])
  unfolding compact
  compact_inversion src opt c report h = ground arith

  sealed_fields :
      (turn : ℤ) (prev : Text) (ms : List Message) (c : Checkpoint)
      → c ≡ sealed sha256_hex turn prev ms
      → (c.turn ≡ turn)
        × (c.prev_hash ≡ prev)
        × (c.version ≡ checkpoint_version)
        × (c.messages ≡ ms)
  unfolding sealed
  sealed_fields turn prev ms c h = ground arith

  -- A successful compaction is one link of the chain: the new checkpoint keeps the turn number, its
  -- previous hash is the hash of the checkpoint it compacted, and it carries its own digest. Its
  -- messages and the report are those of the two passes over the source's messages, and the source
  -- has the known version and at least one message.
  pub compact_chained :
      (src : Checkpoint) (opt : CompactOptions) (c : Checkpoint) (report : CompactReport)
      → compact sha256_hex encode decode (some src) opt ≡ ok (c, report)
      → (c.turn ≡ src.turn)
        × (c.prev_hash ≡ src.hash)
        × (c.version ≡ checkpoint_version)
        × IsSealed c
        × (c.messages ≡ (compacted opt src.messages).0)
        × (report ≡ (compacted opt src.messages).1)
        × (src.version ≡ checkpoint_version)
        × (src.messages ≢ [])
  compact_chained src opt c report h =
      let (made, told, v, ne) = compact_inversion src opt c report h in
      let same = rechained-sealed src (compacted opt src.messages).0 c made in
      let (turn, prev, version, messages) =
        sealed_fields src.turn src.hash (compacted opt src.messages).0 c same in
      (
        turn,
        prev,
        version,
        subst IsSealed (sym same) (sealed-IsSealed _ _ _),
        messages,
        told,
        v,
        ne,
      )

  Trims-ne-nil : (xs ys : List Message) → Trims xs ys → xs ≢ [] → ys ≢ []
  Trims-ne-nil [] ys h ne = absurd (ne refl)
  Trims-ne-nil (x ∷ xs) [] h ne = absurd h
  Trims-ne-nil (x ∷ xs) (y ∷ ys) h ne = cc

  rechained_succeeds :
      (src : Checkpoint) (ms : List Message) (b : Text)
      → ms ≢ []
      → encode (sealed sha256_hex src.turn src.hash ms) ≡ some b
      → decode b ≡ some (sealed sha256_hex src.turn src.hash ms)
      → rechained sha256_hex encode decode src ms ≡ ok (sealed sha256_hex src.turn src.hash ms)
  unfolding rechained
  rechained_succeeds src ms b ne written read = ground arith

  -- Compaction returns a checkpoint for every source of the known version that has a message, if
  -- the JSON library can write the new checkpoint and reads it back as it was.
  pub compact_succeeds :
      (src : Checkpoint) (opt : CompactOptions) (b : Text)
      → src.version ≡ checkpoint_version
      → src.messages ≢ []
      → encode (sealed sha256_hex src.turn src.hash (compacted opt src.messages).0) ≡ some b
      → decode b ≡ some (sealed sha256_hex src.turn src.hash (compacted opt src.messages).0)
      → compact sha256_hex encode decode (some src) opt
        ≡ ok (
          sealed sha256_hex src.turn src.hash (compacted opt src.messages).0,
          (compacted opt src.messages).1,
        )
  unfolding compact
  compact_succeeds src opt b v ne written read =
      let some_left = Trims-ne-nil src.messages _ (compacted-Trims opt src.messages) ne in
      let made = rechained_succeeds src (compacted opt src.messages).0 b some_left written read in
      ground (arith, made)
