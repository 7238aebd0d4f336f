-- ===== src/Agent/Exec.antt =====
-- pkg/agentloop/execregistry.go: the scripts that run now, one file for each. `W` is the state of
-- everything outside. A file is known by its name in the registry's directory, a time is a number, and
-- an error is its text. A registry that is nil is `none`.
pub mod Known
use leartech_go_common.Base.{
  ℕ, Bool, true, false, not, ◌||◌, Option, none, some, List, [], ◌∷◌, ◌++◌, Text, codes, text_eq,
  ◌==◌, if◌then◌else◌,
}
use leartech_go_common.Base.Int.{ℤ, pos, ◌-ℤ◌, leb_ℤ, ltb_ℤ, eq_ℤ, show_int}
use leartech_go_common.Base.Results.{Result, ok, err}
use leartech_go_common.Agent.Files.{FileError}

pub record Entry : Type 0 where
  pub pid : ℤ
  pub shell_pid : ℤ
  pub session_id : Text
  pub tool : Text
  pub what : Text
  pub started : ℤ

-- The outcome of `syscall.Kill`.
pub data Killed : Type 0 where
  killed not_permitted : Killed
  kill_failed : Text → Killed

-- What the registry calls: the making of its directory, its files, `json.Marshal` and `json.Unmarshal`
-- of an entry, and `syscall.Kill` of a process or a group.
pub record ExecPorts (W : Type 0) : Type 0 where
  pub make_dir : W → Bool × W
  pub write_file : Text → Text → W → Bool × W
  pub remove : Text → W → W
  pub read_dir : W → Result FileError (List (Text × Bool))
  pub read_file : Text → W → Option Text
  pub marshal : Entry → Option Text
  pub unmarshal : Text → Option Entry
  pub probe : ℤ → W → Killed
  pub kill : ℤ → ℕ → W → Killed × W

-- `strconv.Itoa(pid) + ".json"`
unfoldable pub path_for : ℤ → Text
unfolding show_int codes
path_for pid = show_int pid ++ codes ".json"

-- `filepath.Ext(name)`: what follows the last dot, with it, or nothing.
unfoldable pub ext_from : Text → Text → Text
ext_from best [] = best
ext_from best (c ∷ s) =
    let dot = ext_from (c ∷ s) s in let on = ext_from best s in if c == 0x2E then dot else on

unfoldable pub is_json : Text → Bool
unfolding ext_from text_eq codes
is_json name = text_eq (ext_from [] name) (codes ".json")

-- `sort.Slice` by the start, the latest first.
unfoldable pub insert_entry : Entry → List Entry → List Entry
insert_entry e [] = e ∷ []
insert_entry e (x ∷ xs) =
    let rest = insert_entry e xs in if ltb_ℤ e.started x.started then x ∷ rest else e ∷ x ∷ xs

unfoldable pub sort_entries : List Entry → List Entry
unfolding insert_entry
sort_entries [] = []
sort_entries (e ∷ es) = insert_entry e (sort_entries es)

-- Whether a pid is one of the entries'.
unfoldable pub is_known : ℤ → List Entry → Bool
is_known pid [] = false
is_known pid (e ∷ es) = let rest = is_known pid es in if eq_ℤ e.pid pid then true else rest

unfoldable pub unknown_pid : ℤ → Text
unfolding show_int codes
unknown_pid pid =
    codes "no ship-proven script is running with pid "
    ++ (show_int pid
        ++ codes
            " (exec kill only manages scripts started by a ship-proven shell; run `ship-proven exec list` to see them)")

unfoldable pub is_alive : Killed → Bool
is_alive killed = true
is_alive not_permitted = true
is_alive (kill_failed e) = false

unfoldable pub signal_error : ℤ → Text → Option Text
unfolding show_int codes
signal_error pid e = some (codes "signalling pid " ++ (show_int pid ++ (codes ": " ++ e)))

unfoldable pub signalled : ℤ → Killed → Option Text
unfolding signal_error codes
signalled pid killed = none
signalled pid not_permitted = signal_error pid (codes "operation not permitted")
signalled pid (kill_failed e) = signal_error pid e

module _ {W : Type 0} (ports : ExecPorts W) where
  -- `record`: whether the entry was written, and what the returned function does.
  unfoldable pub record_encoded : ℤ → Option Text → W → (W → W) × W
  unfolding path_for
  record_encoded pid none w = ((λ v. v), w)
  record_encoded pid (some b) w =
      let (written, v) = ports.write_file (path_for pid) b w in
      ((if written then ports.remove (path_for pid) else (λ u. u)), v)

  unfoldable pub record_entry : Entry → W → (W → W) × W
  unfolding record_encoded
  record_entry e w =
      let (made, v) = ports.make_dir w in
      let there = record_encoded e.pid (ports.marshal e) v in if made then there else ((λ u. u), v)

  unfoldable pub process_alive : ℤ → W → Bool
  unfolding is_alive
  process_alive pid w = if leb_ℤ pid (pos 0) then false else is_alive (ports.probe pid w)

  -- An entry whose shell is gone is removed.
  unfoldable pub reap : Text → Entry → List Entry × W → List Entry × W
  unfolding process_alive
  reap name e (out, w) =
      if process_alive e.shell_pid w then (out ++ e ∷ [], w) else (out, ports.remove name w)

  unfoldable pub list_decoded : Text → Option Entry → List Entry × W → List Entry × W
  unfolding reap
  list_decoded name none (out, w) = (out, ports.remove name w)
  list_decoded name (some e) (out, w) = reap name e (out, w)

  unfoldable pub list_read : Text → Option Text → List Entry × W → List Entry × W
  unfolding list_decoded
  list_read name none s = s
  list_read name (some b) s = list_decoded name (ports.unmarshal b) s

  -- The body of the loop of `List`.
  unfoldable pub list_name : Text × Bool → List Entry × W → List Entry × W
  unfolding list_read is_json
  list_name (name, is_dir) s =
      if is_dir || not (is_json name) then s else list_read name (ports.read_file name s.1) s

  unfoldable pub list_names : List (Text × Bool) → List Entry × W → List Entry × W
  unfolding list_name
  list_names [] s = s
  list_names (n ∷ ns) s = list_names ns (list_name n s)

  unfoldable pub list_found :
      Result FileError (List (Text × Bool)) → W → Result Text (List Entry) × W
  unfolding list_names sort_entries
  list_found (ok ns) w = let (out, v) = list_names ns ([], w) in (ok (sort_entries out), v)
  list_found (err e) w = (if e.missing then (ok [], w) else (err e.text, w))

  -- `List` of a registry that is not nil.
  unfoldable pub list_entries : W → Result Text (List Entry) × W
  unfolding list_found
  list_entries w = list_found (ports.read_dir w) w

  unfoldable pub kill_listed : ℤ → Bool → Result Text (List Entry) × W → Option Text × W
  unfolding is_known unknown_pid signalled
  kill_listed pid force (err e, w) = (some e, w)
  kill_listed pid force (ok es, w) =
      let (out, v) = ports.kill (pos 0 -ℤ pid) (if force then 9 else 15) w in
      if is_known pid es then (signalled pid out, v) else (some (unknown_pid pid), w)

  -- `Kill` of a registry that is not nil.
  unfoldable pub kill_entry : ℤ → Bool → W → Option Text × W
  unfolding list_entries kill_listed
  kill_entry pid force w = kill_listed pid force (list_entries w)
