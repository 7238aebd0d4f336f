-- ===== src/Agent/Runner/Session/Chain.antt =====
-- The checkpoints that a session writes.
use leartech_go_common.Base.{
  arith, ℕ, ◌≡◌, refl, sym, ap, ◌∙◌, Bool, true, false, Option, none, some, List, [], ◌∷◌, ◌++◌,
  Text,
}
use leartech_go_common.Base.Int.{ℤ, pos, add_int}
use leartech_go_common.Base.Trim.{trim_space}
use leartech_go_common.Base.Results.{Result, ok, err, ◌>>=◌}
use leartech_go_common.Agent.Loop.{Loop, Err}
use leartech_go_common.Agent.Checkpoint.{
  Checkpoint, CheckpointError, checkpoint, checkpoint_at, sealed, compute_hash,
}
use leartech_go_common.Agent.Runner.Ports.{Ports}
use leartech_go_common.Agent.Runner.Drive.{Driven}
use leartech_go_common.Agent.Runner.Session.{
  Read, line, interrupted, failed, Session, Hooks, Attempt, RunEnd, is_idle, end_of_drive,
  written_as, write_encoded, write_checkpoint, boundary, boundary_if, collect_driven, after_drive,
  proceed, proceed_driven, submit, take_line, run_lines, first_turn, first_hash, start,
  run_with_loop,
}

-- The turn and the hash after the checkpoints of a chain.
abbrev pub turn_after : ℤ → List Checkpoint → ℤ
turn_after turn [] = turn
turn_after turn (c ∷ cs) = turn_after c.turn cs

abbrev pub hash_after : Text → List Checkpoint → Text
hash_after prev [] = prev
hash_after prev (c ∷ cs) = hash_after c.hash cs

module _ {W : Type 0} (hooks : Hooks W) where
  -- Checkpoints that count the turns up from `turn`, each with the hash of the one before it and sealed
  -- by its own.
  abbrev pub IsChain : ℤ → Text → List Checkpoint → Type 0
  IsChain turn prev [] = Unit
  IsChain turn prev (c ∷ cs) =
      (c.turn ≡ add_int turn (pos 1))
      × (c.prev_hash ≡ prev)
      × (c.hash ≡ compute_hash hooks.sha256_hex c)
      × IsChain c.turn c.hash cs

  IsChain-snoc :
      (turn : ℤ) (prev : Text) (cs : List Checkpoint) (c : Checkpoint)
      → IsChain turn prev cs
      → c.turn ≡ add_int (turn_after turn cs) (pos 1)
      → c.prev_hash ≡ hash_after prev cs
      → c.hash ≡ compute_hash hooks.sha256_hex c
      → IsChain turn prev (cs ++ c ∷ [])
  IsChain-snoc turn prev [] c h t p s = (t, p, s, tt)
  IsChain-snoc turn prev (x ∷ cs) c (a, b, d, h) t p s =
      (a, b, d, IsChain-snoc x.turn x.hash cs c h t p s)

  turn_after-snoc :
      (turn : ℤ) (cs : List Checkpoint) (c : Checkpoint) → turn_after turn (cs ++ c ∷ []) ≡ c.turn
  turn_after-snoc turn [] c = refl
  turn_after-snoc turn (x ∷ cs) c = turn_after-snoc x.turn cs c

  hash_after-snoc :
      (prev : Text) (cs : List Checkpoint) (c : Checkpoint)
      → hash_after prev (cs ++ c ∷ []) ≡ c.hash
  hash_after-snoc prev [] c = refl
  hash_after-snoc prev (x ∷ cs) c = hash_after-snoc x.hash cs c

  checkpoint-sealed :
      (l : Loop) (turn : ℤ) (prev : Text) (cp : Checkpoint)
      → checkpoint hooks.sha256_hex l turn prev ≡ ok cp
      → (cp.turn ≡ turn) × (cp.prev_hash ≡ prev) × (cp.hash ≡ compute_hash hooks.sha256_hex cp)
  unfolding checkpoint checkpoint_at sealed compute_hash
  checkpoint-sealed l turn prev cp h = ground arith

  module _ (turn : ℤ) (prev : Text) where
    -- A session that is at the end of the chain that it wrote.
    abbrev Chained : Session W → Type 0
    Chained s =
        IsChain turn prev s.written
        × (s.turn ≡ turn_after turn s.written)
        × (s.prev_hash ≡ hash_after prev s.written)

    abbrev AttemptChained : Attempt W → Type 0
    AttemptChained (ok s) = Chained s
    AttemptChained (err (e, s)) = IsChain turn prev s.written

    abbrev pub EndsChained : Option (RunEnd W) → Type 0
    EndsChained none = Unit
    EndsChained (some (e, s)) = IsChain turn prev s.written

    module _ (f : Text → W → Option Err × W) (hooked : hooks.on_boundary ≡ some f) where
      written_as-Chained :
          (s : Session W) (cp : Checkpoint) (r : Option Err × W)
          → IsChain turn prev s.written
          → cp.turn ≡ s.turn
          → s.turn ≡ add_int (turn_after turn s.written) (pos 1)
          → cp.prev_hash ≡ hash_after prev s.written
          → cp.hash ≡ compute_hash hooks.sha256_hex cp
          → AttemptChained (written_as s cp r)
      unfolding written_as
      written_as-Chained s cp (some e, w) h a b c d = h
      written_as-Chained s cp (none, w) h a b c d = (
        IsChain-snoc turn prev s.written cp h (a ∙ b) c d,
        sym a ∙ sym (turn_after-snoc turn s.written cp),
        sym (hash_after-snoc prev s.written cp),
      )

      write_encoded-Chained :
          (s : Session W) (cp : Checkpoint) (o : Option Text)
          → IsChain turn prev s.written
          → cp.turn ≡ s.turn
          → s.turn ≡ add_int (turn_after turn s.written) (pos 1)
          → cp.prev_hash ≡ hash_after prev s.written
          → cp.hash ≡ compute_hash hooks.sha256_hex cp
          → AttemptChained (write_encoded f s cp o)
      unfolding write_encoded
      write_encoded-Chained s cp none h a b c d = h
      write_encoded-Chained s cp (some t) h a b c d =
          written_as-Chained s cp (f t s.world) h a b c d

      write_checkpoint-Chained :
          (s : Session W) (r : Result CheckpointError Checkpoint)
          → IsChain turn prev s.written
          → s.turn ≡ add_int (turn_after turn s.written) (pos 1)
          → s.prev_hash ≡ hash_after prev s.written
          → checkpoint hooks.sha256_hex s.loop s.turn s.prev_hash ≡ r
          → AttemptChained (write_checkpoint hooks.encode f s r)
      unfolding write_checkpoint
      write_checkpoint-Chained s (err e) h b c made = h
      write_checkpoint-Chained s (ok cp) h b c made =
          let (turns, links, hashed) = checkpoint-sealed s.loop s.turn s.prev_hash cp made in
          write_encoded-Chained s cp (hooks.encode cp) h turns b (links ∙ c) hashed

      boundary_if-Chained :
          (b : Bool) (s : Session W) → Chained s → AttemptChained (boundary_if b hooks s)
      unfolding boundary_if boundary
      boundary_if-Chained false s h = h
      boundary_if-Chained true s (h, t, p) = rw hooked (
          write_checkpoint-Chained (record s { turn = add_int s.turn (pos 1) }) _ h
            (ap (λ z. add_int z (pos 1)) t) p refl)

      collect_driven-Chained :
          (m : Driven W) (s : Session W) → Chained s → AttemptChained (collect_driven m s)
      unfolding collect_driven
      collect_driven-Chained (ok d) s h = h
      collect_driven-Chained (err e) s h = h.0

      then-Chained :
          (m : Driven W) (a : Attempt W)
          → AttemptChained a
          → AttemptChained (a >>= collect_driven m)
      then-Chained m (ok s) h = collect_driven-Chained m s h
      then-Chained m (err (e, s)) h = h

      proceed-EndsChained :
          (next : Session W → Option (RunEnd W)) (a : Attempt W)
          → ((s : Session W) → Chained s → EndsChained (next s))
          → AttemptChained a
          → EndsChained (proceed next a)
      unfolding proceed
      proceed-EndsChained next (ok s) k h = k s h
      proceed-EndsChained next (err (e, s)) k h = h

      proceed_driven-EndsChained :
          (next : Session W → Option (RunEnd W)) (s : Session W) (o : Option (Loop × Driven W))
          → ((s : Session W) → Chained s → EndsChained (next s))
          → Chained s
          → EndsChained (proceed_driven hooks next s o)
      unfolding proceed_driven after_drive
      proceed_driven-EndsChained next s none k h = tt
      proceed_driven-EndsChained next s (some (l, m)) k h = proceed-EndsChained next _ k (
          then-Chained m _ (
            boundary_if-Chained (is_idle l.state) (record s { loop = l; world = end_of_drive m })
              h))

      submit-EndsChained :
          (ports : Ports W) (fuel : ℕ) (next : Session W → Option (RunEnd W)) (t : Text)
          (s : Session W) (r : Result Err Bool × W)
          → ((s : Session W) → Chained s → EndsChained (next s))
          → Chained s
          → EndsChained (submit ports hooks fuel next t s r)
      unfolding submit
      submit-EndsChained ports fuel next t s (err e, w) k h = h.0
      submit-EndsChained ports fuel next t s (ok true, w) k h = k (record s { world = w }) h
      submit-EndsChained ports fuel next t s (ok false, w) k h =
          proceed_driven-EndsChained next (record s { world = w }) _ k h

      take_line-EndsChained :
          (ports : Ports W) (fuel : ℕ) (next : Session W → Option (RunEnd W)) (t : Text)
          (s : Session W)
          → ((s : Session W) → Chained s → EndsChained (next s))
          → Chained s
          → EndsChained (take_line ports hooks fuel next t s)
      unfolding take_line
      take_line-EndsChained ports fuel next [] s k h = k s h
      take_line-EndsChained ports fuel next (c ∷ t) s k h =
          submit-EndsChained ports fuel next (c ∷ t) s _ k h

      run_lines-EndsChained :
          (ports : Ports W) (fuel : ℕ) (reads : List Read) (s : Session W)
          → Chained s
          → EndsChained (run_lines ports hooks fuel reads s)
      unfolding run_lines
      run_lines-EndsChained ports fuel [] s h = h.0
      run_lines-EndsChained ports fuel (interrupted ∷ reads) s h =
          run_lines-EndsChained ports fuel reads s h
      run_lines-EndsChained ports fuel (failed e ∷ reads) s h = h.0
      run_lines-EndsChained ports fuel (line t ∷ reads) s h =
          take_line-EndsChained ports fuel (run_lines ports hooks fuel reads) (trim_space t) s
            (run_lines-EndsChained ports fuel reads) h

-- With OnBoundary set, however a run ends, and whatever its lines, tools, streams and hooks do, the
-- checkpoints that `OnBoundary` took count the turns up from the checkpoint that the run was resumed
-- from (from 0 with no hash, if from none), each has the hash of the one before it, and its own hash
-- is its digest.
pub run_with_loop-EndsChained :
    {W : Type 0} (ports : Ports W) (hooks : Hooks W) (fuel : ℕ) (resumed : Option Checkpoint)
    (l : Loop) (reads : List Read) (w : W) (f : Text → W → Option Err × W)
    → hooks.on_boundary ≡ some f
    → EndsChained hooks
        (first_turn resumed)
        (first_hash resumed)
        (run_with_loop ports hooks fuel resumed l reads w)
unfolding run_with_loop start
run_with_loop-EndsChained ports hooks fuel resumed l reads w f hooked =
    run_lines-EndsChained hooks (first_turn resumed) (first_hash resumed) f hooked ports fuel reads
      (start resumed l w) (tt, refl, refl)
