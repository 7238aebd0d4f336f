-- ===== src/Agent/Runner/Session/Total.antt =====
-- A session ends: `runWithLoop` returns.
use leartech_go_common.Base.{
  Option-cases, inl, inr, ℕ, zero, suc, ◌+◌, ◌≤◌, arith, ◌≡◌, refl, Bool, true, false, Option, none,
  some, List, [], ◌∷◌, Text,
}
use leartech_go_common.Base.Int.{pos, add_int}
use leartech_go_common.Base.Trim.{trim_space}
use leartech_go_common.Base.Results.{Result, ok, err, ◌>>=◌}
use leartech_go_common.Agent.Loop.{Loop, Err, Event, idle}
use leartech_go_common.Agent.Loop.Invariant.{IsSettled}
use leartech_go_common.Agent.Checkpoint.{Checkpoint, CheckpointError, checkpoint}
use leartech_go_common.Agent.Runner.Ports.{Ports}
use leartech_go_common.Agent.Runner.Drive.{Driving, Driven, drive, drive_on, go_on}
use leartech_go_common.Agent.Runner.Adds.{AllOrderly}
use leartech_go_common.Agent.Runner.Quiet.{EndsIdle}
use leartech_go_common.Agent.Runner.Quiet.Ends.{drive-EndsIdle}
use leartech_go_common.Agent.Runner.Session.{
  Read, line, interrupted, failed, Session, Hooks, Attempt, RunEnd, is_idle, input_event,
  end_of_drive, written_as, write_encoded, write_checkpoint, boundary, boundary_if, collect_driven,
  after_drive, proceed, proceed_driven, intercepted, submit, take_line, run_lines, start,
  run_with_loop, outcome, intercept_error, read_error,
}

-- With enough fuel a run gives a result, and more fuel gives the same one.
abbrev pub Halts : {A : Type 0} → (ℕ → Option A) → Type 0
Halts {A} run = (enough : ℕ) × (end : A) × ((fuel : ℕ) → enough ≤ fuel → run fuel ≡ some end)

module _ {W : Type 0} (ports : Ports W) where
  go_on-more :
      (f g : List Event → Loop → Driving W → Option (Loop × Driven W)) (l : Loop) (m : Driven W)
      (end : Loop × Driven W)
      → ((q : List Event) (d : Driving W) → f q l d ≡ some end → g q l d ≡ some end)
      → go_on ports f l m ≡ some end
      → go_on ports g l m ≡ some end
  unfolding go_on
  go_on-more f g l (ok d) end k h = k d.queue d h
  go_on-more f g l (err s) end k h = h

  drive_on-more :
      (n m : ℕ) (q : List Event) (l : Loop) (d : Driving W) (end : Loop × Driven W)
      → n ≤ m
      → drive_on ports n q l d ≡ some end
      → drive_on ports m q l d ≡ some end
  unfolding drive_on
  drive_on-more n m [] l d end le h = h
  drive_on-more zero m (e ∷ q) l d end le h = cc
  drive_on-more (suc n) zero (e ∷ q) l d end le h = absurd (omega arith)
  drive_on-more (suc n) (suc m) (e ∷ q) l d end le h =
      go_on-more (drive_on ports n) (drive_on ports m) _ _ end
        (λ q' d'. drive_on-more n m q' _ d' end (omega arith)) h

  -- A loop between two inputs.
  abbrev pub Resting : Loop → Type 0
  Resting l = (l.state ≡ idle) × IsSettled l

  abbrev AttemptResting : Attempt W → Type 0
  AttemptResting (ok s) = Resting s.loop
  AttemptResting (err e) = Unit

  abbrev SameLoop : Loop → Attempt W → Type 0
  SameLoop l (ok s) = s.loop ≡ l
  SameLoop l (err e) = Unit

  write_checkpoint-SameLoop :
      (encode : Checkpoint → Option Text) (f : Text → W → Option Err × W) (s : Session W)
      (r : Result CheckpointError Checkpoint)
      → SameLoop s.loop (write_checkpoint encode f s r)
  unfolding write_checkpoint write_encoded written_as
  write_checkpoint-SameLoop encode f s r = ground arith

  boundary_if-SameLoop :
      (hooks : Hooks W) (b : Bool) (s : Session W) → SameLoop s.loop (boundary_if b hooks s)
  unfolding boundary_if boundary
  boundary_if-SameLoop hooks false s = refl
  boundary_if-SameLoop hooks true s = elim (Option-cases hooks.on_boundary) [
    | inl unset ↦ rw unset refl
    | inr (f, set) ↦ rw set (
        write_checkpoint-SameLoop hooks.encode f (record s { turn = add_int s.turn (pos 1) })
          (checkpoint hooks.sha256_hex s.loop (add_int s.turn (pos 1)) s.prev_hash))
  ]

  collect_driven-Resting :
      (l : Loop) (m : Driven W) (a : Attempt W)
      → EndsIdle ports (some (l, m))
      → SameLoop l a
      → AttemptResting (a >>= collect_driven m)
  unfolding collect_driven
  collect_driven-Resting l (ok d) (ok s) (i, settled) same = rw same (i, settled)
  collect_driven-Resting l (err e) (ok s) h same = tt
  collect_driven-Resting l m (err e) h same = tt

  proceed-Halts :
      (next : ℕ → Session W → Option (RunEnd W)) (a : Attempt W)
      → ((s : Session W) → Resting s.loop → Halts (λ n. next n s))
      → AttemptResting a
      → Halts (λ n. proceed (next n) a)
  unfolding proceed
  proceed-Halts next (ok s) k h = k s h
  proceed-Halts next (err (e, s)) k h = (0, (some e, s), λ n le. refl)

  proceed_driven-Halts :
      (hooks : Hooks W) (next : ℕ → Session W → Option (RunEnd W)) (s : Session W)
      (run : ℕ → Option (Loop × Driven W))
      → ((s : Session W) → Resting s.loop → Halts (λ n. next n s))
      → (fuel : ℕ) (l : Loop) (m : Driven W) → ((n : ℕ) → fuel ≤ n → run n ≡ some (l, m))
      → EndsIdle ports (some (l, m))
      → Halts (λ n. proceed_driven hooks (next n) s (run n))
  unfolding proceed_driven after_drive
  proceed_driven-Halts hooks next s run k fuel l m same rests =
      let after : Session W = record s { loop = l; world = end_of_drive m } in
      let (enough, end, halts) =
        proceed-Halts next (boundary_if (is_idle l.state) hooks after >>= collect_driven m) k (
          collect_driven-Resting l m (boundary_if (is_idle l.state) hooks after) rests
            (boundary_if-SameLoop hooks (is_idle l.state) after)) in
      (fuel + enough, end, λ n le. rw (same n (omega arith)) (halts n (omega arith)))

  module _ (all : AllOrderly ports) (quiet : ports.ask_continue ≡ none) where
    drive-Halts :
        (l : Loop) (t : Text) (w : W)
        → Resting l
        → (fuel : ℕ) × (end : Loop × Driven W) × ((n : ℕ)
            → fuel ≤ n
            → drive ports n l (input_event t) w ≡ some end)
          × EndsIdle ports (some end)
    unfolding drive input_event
    drive-Halts l t w (i, s) =
        let (fuel, end, same, rests) =
          drive-EndsIdle ports all quiet l (input_event t) w i s refl in
        (
          fuel,
          end,
          λ n le.
              drive_on-more fuel n (input_event t ∷ []) l
                (record { queue = input_event t ∷ []; failed = []; needs_break = false; world = w })
                end le same,
          rests,
        )

    submit-Halts :
        (hooks : Hooks W) (next : ℕ → Session W → Option (RunEnd W)) (t : Text) (s : Session W)
        (r : Result Err Bool × W)
        → ((s : Session W) → Resting s.loop → Halts (λ n. next n s))
        → Resting s.loop
        → Halts (λ n. submit ports hooks n (next n) t s r)
    unfolding submit
    submit-Halts hooks next t s (err e, w) k h =
        (0, (some (intercept_error e), record s { world = w }), λ n le. refl)
    submit-Halts hooks next t s (ok true, w) k h = k (record s { world = w }) h
    submit-Halts hooks next t s (ok false, w) k h =
        let (fuel, (l, m), same, rests) = drive-Halts s.loop t w h in
        proceed_driven-Halts hooks next (record s { world = w })
          (λ n. drive ports n s.loop (input_event t) w) k fuel l m same rests

    take_line-Halts :
        (hooks : Hooks W) (next : ℕ → Session W → Option (RunEnd W)) (t : Text) (s : Session W)
        → ((s : Session W) → Resting s.loop → Halts (λ n. next n s))
        → Resting s.loop
        → Halts (λ n. take_line ports hooks n (next n) t s)
    unfolding take_line
    take_line-Halts hooks next [] s k h = k s h
    take_line-Halts hooks next (c ∷ t) s k h =
        submit-Halts hooks next (c ∷ t) s (intercepted hooks (c ∷ t) s.world) k h

    run_lines-Halts :
        (hooks : Hooks W) (reads : List Read) (s : Session W)
        → Resting s.loop
        → Halts (λ n. run_lines ports hooks n reads s)
    unfolding run_lines
    run_lines-Halts hooks [] s h = (0, (outcome s.failures, s), λ n le. refl)
    run_lines-Halts hooks (interrupted ∷ reads) s h = run_lines-Halts hooks reads s h
    run_lines-Halts hooks (failed e ∷ reads) s h = (0, (some (read_error e), s), λ n le. refl)
    run_lines-Halts hooks (line t ∷ reads) s h =
        take_line-Halts hooks (λ n. run_lines ports hooks n reads) (trim_space t) s
          (run_lines-Halts hooks reads) h

-- From a loop between two inputs, with streams that ask for no call after they ended the turn and
-- nobody to grant more calls, `runWithLoop` returns on any finite input, whatever the hooks and the
-- tools answer, and what it returns does not depend on the fuel once that is enough.
pub run_with_loop-Halts :
    {W : Type 0} (ports : Ports W) (hooks : Hooks W) (resumed : Option Checkpoint) (l : Loop)
    (reads : List Read) (w : W)
    → AllOrderly ports
    → ports.ask_continue ≡ none
    → l.state ≡ idle
    → IsSettled l
    → Halts (λ fuel. run_with_loop ports hooks fuel resumed l reads w)
unfolding run_with_loop start
run_with_loop-Halts ports hooks resumed l reads w all quiet i s =
    run_lines-Halts ports all quiet hooks reads (start resumed l w) (i, s)
