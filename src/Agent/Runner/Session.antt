-- ===== src/Agent/Runner/Session.antt =====
-- runner.go: `Run`, `RunRestored` and `runWithLoop`. The lines are what `ReadLine` returns, up to its
-- `io.EOF`.
pub mod Chain
pub mod Total
use leartech_go_common.Base.{
  ℕ, Bool, true, false, Option, none, some, List, [], ◌∷◌, ◌++◌, Text, codes, length, is_empty,
  if◌then◌else◌,
}
use leartech_go_common.Base.Int.{ℤ, pos, add_int}
use leartech_go_common.Base.Results.{Result, ok, err, ◌>>=◌}
use leartech_go_common.Base.Trim.{trim_space}
use leartech_go_common.Agent.Loop.{
  Loop, Err, Event, user_input, State, idle, awaiting, running, asking, new,
}
use leartech_go_common.Agent.Checkpoint.{Checkpoint, CheckpointError, checkpoint}
use leartech_go_common.Agent.Runner.Ports.{Ports}
use leartech_go_common.Agent.Runner.Drive.{blank_event, Driving, Driven, DriveError, drive}

-- What one `ReadLine` returns: `interrupted` is `ErrInterrupted`.
pub data Read : Type 0 where
  line : Text → Read
  interrupted : Read
  failed : Err → Read

-- `no_loop` is the error of a run restored from no loop, `not_encoded` an error of `json.Marshal`, and
-- `turns_failed` has the number of the failures and the last one.
pub data RunError : Type 0 where
  no_loop not_encoded : RunError
  read_error intercept_error boundary_error : Err → RunError
  not_a_boundary : CheckpointError → RunError
  drive_error : DriveError → RunError
  turns_failed : ℕ → Option Err → RunError

-- The variables of `runWithLoop`, and everything outside. `written` is no variable of the code: it
-- tells which checkpoints `OnBoundary` has taken.
pub record Session (W : Type 0) : Type 0 where
  pub loop : Loop
  pub turn : ℤ
  pub prev_hash : Text
  pub failures : List (Option Err)
  pub written : List Checkpoint
  pub world : W

-- The fields of `Runner` that only these functions use, with the library's digest and `json.Marshal`.
pub record Hooks (W : Type 0) : Type 0 where
  pub sha256_hex : Text → Text
  pub encode : Checkpoint → Option Text
  pub on_boundary : Option (Text → W → Option Err × W)
  pub intercept : Option (Text → W → Result Err Bool × W)

-- A session that goes on, or one that returned an error.
abbrev pub Attempt : Type 0 → Type 0
Attempt W = Result (RunError × Session W) (Session W)

-- How a run returned, and the session then.
abbrev pub RunEnd : Type 0 → Type 0
RunEnd W = Option RunError × Session W

unfoldable pub is_idle : State → Bool
is_idle idle = true
is_idle awaiting = false
is_idle running = false
is_idle asking = false

unfoldable pub input_event : Text → Event
input_event t = record (blank_event user_input) { text = t }

-- `failures[n-1]`, of failures that follow `e`.
unfoldable pub last_failure : Option Err → List (Option Err) → Option Err
last_failure e [] = e
last_failure e (f ∷ fs) = last_failure f fs

-- The end of `runWithLoop`.
unfoldable pub outcome : List (Option Err) → Option RunError
unfolding last_failure
outcome [] = none
outcome (e ∷ es) = some (turns_failed (length (e ∷ es)) (last_failure e es))

-- The turn and the hash that a session starts from.
unfoldable pub first_turn : Option Checkpoint → ℤ
first_turn none = pos 0
first_turn (some c) = c.turn

unfoldable pub first_hash : Option Checkpoint → Text
first_hash none = []
first_hash (some c) = c.hash

module _ {W : Type 0} where
  unfoldable pub end_of_drive : Driven W → W
  end_of_drive (ok d) = d.world
  end_of_drive (err s) = s.1

  -- `if err := r.OnBoundary(b); err != nil { … }`
  unfoldable pub written_as : Session W → Checkpoint → Option Err × W → Attempt W
  written_as s cp (some e, w) = err (boundary_error e, record s { world = w })
  written_as s cp (none, w) =
      ok (record s { prev_hash = cp.hash; written = s.written ++ cp ∷ []; world = w })

  unfoldable pub write_encoded :
      (Text → W → Option Err × W) → Session W → Checkpoint → Option Text → Attempt W
  unfolding written_as
  write_encoded f s cp none = err (not_encoded, s)
  write_encoded f s cp (some b) = written_as s cp (f b s.world)

  unfoldable pub write_checkpoint :
      (Checkpoint → Option Text)
      → (Text → W → Option Err × W)
      → Session W
      → Result CheckpointError Checkpoint
      → Attempt W
  unfolding write_encoded
  write_checkpoint encode f s (err e) = err (not_a_boundary e, s)
  write_checkpoint encode f s (ok cp) = write_encoded f s cp (encode cp)

  -- `boundary`
  unfoldable pub boundary : Hooks W → Session W → Attempt W
  unfolding write_checkpoint
  boundary hooks s = elim hooks.on_boundary [
    | none ↦ ok s
    | some f ↦
        write_checkpoint hooks.encode f s (checkpoint hooks.sha256_hex s.loop s.turn s.prev_hash)
  ]

  -- `if loop.State() == Idle { … }`
  unfoldable pub boundary_if : Bool → Hooks W → Session W → Attempt W
  unfolding boundary
  boundary_if false hooks s = ok s
  boundary_if true hooks s = boundary hooks (record s { turn = add_int s.turn (pos 1) })

  -- `if dErr != nil { … }`, else `failures = append(failures, shown...)`
  unfoldable pub collect_driven : Driven W → Session W → Attempt W
  collect_driven (err s') s = err (drive_error s'.0.1, s)
  collect_driven (ok d) s = ok (record s { failures = s.failures ++ d.failed })

  -- The body of the loop after `drive`.
  unfoldable pub after_drive : Hooks W → Session W → Loop × Driven W → Attempt W
  unfolding boundary_if collect_driven end_of_drive is_idle
  after_drive hooks s (l, m) =
      boundary_if (is_idle l.state) hooks (record s { loop = l; world = end_of_drive m })
      >>= collect_driven m

  unfoldable pub proceed : (Session W → Option (RunEnd W)) → Attempt W → Option (RunEnd W)
  proceed next (err (e, s)) = some (some e, s)
  proceed next (ok s) = next s

  unfoldable pub proceed_driven :
      Hooks W
      → (Session W → Option (RunEnd W))
      → Session W
      → Option (Loop × Driven W)
      → Option (RunEnd W)
  unfolding proceed after_drive
  proceed_driven hooks next s none = none
  proceed_driven hooks next s (some end) = proceed next (after_drive hooks s end)

  -- Whether the command surface took the line.
  unfoldable pub intercepted : Hooks W → Text → W → Result Err Bool × W
  intercepted hooks t w = elim hooks.intercept [ none ↦ (ok false, w) | some f ↦ f t w ]

  unfoldable pub submit :
      Ports W
      → Hooks W
      → ℕ
      → (Session W → Option (RunEnd W))
      → Text
      → Session W
      → Result Err Bool × W
      → Option (RunEnd W)
  unfolding proceed_driven input_event
  submit ports hooks fuel next t s (err e, w) =
      some (some (intercept_error e), record s { world = w })
  submit ports hooks fuel next t s (ok true, w) = next (record s { world = w })
  submit ports hooks fuel next t s (ok false, w) =
      proceed_driven hooks next (record s { world = w }) (drive ports fuel s.loop (input_event t) w)

  -- A line without the white space around it.
  unfoldable pub take_line :
      Ports W → Hooks W → ℕ → (Session W → Option (RunEnd W)) → Text → Session W → Option (RunEnd W)
  unfolding submit intercepted
  take_line ports hooks fuel next [] s = next s
  take_line ports hooks fuel next (c ∷ t) s =
      submit ports hooks fuel next (c ∷ t) s (intercepted hooks (c ∷ t) s.world)

  -- The loop of `runWithLoop`, with `fuel` for each `drive`.
  unfoldable pub run_lines : Ports W → Hooks W → ℕ → List Read → Session W → Option (RunEnd W)
  unfolding take_line outcome
  run_lines ports hooks fuel [] s = some (outcome s.failures, s)
  run_lines ports hooks fuel (interrupted ∷ reads) s = run_lines ports hooks fuel reads s
  run_lines ports hooks fuel (failed e ∷ reads) s = some (some (read_error e), s)
  run_lines ports hooks fuel (line t ∷ reads) s =
      take_line ports hooks fuel (run_lines ports hooks fuel reads) (trim_space t) s

  unfoldable pub start : Option Checkpoint → Loop → W → Session W
  unfolding first_turn first_hash
  start resumed l w = record {
    loop = l;
    turn = first_turn resumed;
    prev_hash = first_hash resumed;
    failures = [];
    written = [];
    world = w;
  }

  -- `runWithLoop`
  unfoldable pub run_with_loop :
      Ports W → Hooks W → ℕ → Option Checkpoint → Loop → List Read → W → Option (RunEnd W)
  unfolding run_lines start
  run_with_loop ports hooks fuel resumed l reads w =
      run_lines ports hooks fuel reads (start resumed l w)

  -- `Run`, of a runner that was not resumed.
  unfoldable pub run_session : Ports W → Hooks W → ℕ → List Read → Text → ℤ → W → Option (RunEnd W)
  unfolding run_with_loop
  run_session ports hooks fuel reads system max_tools w =
      run_with_loop ports hooks fuel none (new system max_tools) reads w

  -- `RunRestored`
  unfoldable pub run_restored :
      Ports W
      → Hooks W
      → ℕ
      → Option Loop
      → Option Checkpoint
      → List Read
      → W
      → Result RunError (Option (RunEnd W))
  unfolding run_with_loop
  run_restored ports hooks fuel none from reads w = err no_loop
  run_restored ports hooks fuel (some l) from reads w =
      ok (run_with_loop ports hooks fuel from l reads w)
