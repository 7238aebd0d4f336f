-- ===== src/Agent/Files/Write.antt =====
-- pkg/agentloop/write.go: the tool that replaces a file, and what it shows for approval. The decoder
-- of the arguments is a parameter, and an error is its text.
pub mod Placed
pub mod Kept
use leartech_go_common.Base.{
  ℕ, suc, ◌+◌, Bool, true, false, not, Option, none, some, List, [], ◌∷◌, ◌++◌, Text, codes,
  text_eq, decimal, is_empty, length, ltb, ◌==◌, if◌then◌else◌,
}
use leartech_go_common.Base.Results.{Result, ok, err, ◌>>=◌}
use leartech_go_common.Base.Paths.{
  FilePath, split_path, clean_below, is_rooted, join_path, join_parts, dir, show_path,
}
use leartech_go_common.Agent.Diff.{trim_suffix, unified_diff}
use leartech_go_common.Agent.Files.{
  FileError, FileInfo, Disk, under, inside_git_dir, or_text, real_root, is_a_directory,
}

abbrev pub max_write_bytes : ℕ
max_write_bytes = 1048576

pub record WriteArgs : Type 0 where
  pub path : Text
  pub content : Text

-- `os.MkdirAll` and `os.WriteFile`: an error, if any, and what is then on the disk.
pub record Writer (W : Type 0) : Type 0 where
  pub mkdir_all : FilePath → W → Option Text × W
  pub write_file : FilePath → Text → W → Option Text × W

unfoldable pub check_write : WriteArgs → Result Text WriteArgs
unfolding codes decimal
check_write in_args =
    if is_empty in_args.path
    then err (codes "path is required")
    else if ltb max_write_bytes (length in_args.content)
    then err (
        decimal (length in_args.content)
        ++ (codes " bytes is more than the "
            ++ (decimal max_write_bytes
                ++ codes "-byte limit; a change that large is not reviewable in a prompt")))
    else ok in_args

-- `parseWrite`, of what the decoder gives.
unfoldable pub parse_write : Result Text WriteArgs → Result Text WriteArgs
unfolding check_write codes
parse_write (err e) = err (codes "arguments are not valid JSON: " ++ e)
parse_write (ok in_args) = check_write in_args

-- The text of a refusal.
unfoldable pub refuse_write : Text → Text → Text
unfolding codes
refuse_write name why = codes "refusing to write " ++ (name ++ why)

-- `strings.Count(strings.TrimSuffix(body, "\n"), "\n") + 1`, and 0 for no text.
unfoldable pub count_newlines : Text → ℕ
count_newlines [] = 0
count_newlines (c ∷ s) = (if c == 0x0A then 1 else 0) + count_newlines s

unfoldable pub line_count : Text → ℕ
unfolding count_newlines trim_suffix
line_count body = if is_empty body then 0 else count_newlines (trim_suffix body) + 1

-- `filepath.Dir` of a text.
unfoldable pub dir_of : Text → FilePath
unfolding split_path clean_below is_rooted
dir_of s = record {
  rooted = is_rooted s;
  up = clean_below (is_rooted s) [] (elim (split_path s) [ [] ↦ [] | p ∷ ps ↦ ps ]);
}

unfoldable pub wrote : WriteArgs → Option Text → Text
unfolding codes decimal
wrote in_args none =
    codes "wrote "
    ++ (in_args.path
        ++ (codes " (new file, " ++ (decimal (length in_args.content) ++ codes " bytes)")))
wrote in_args (some existing) =
    codes "wrote "
    ++ (in_args.path
        ++ (codes " ("
            ++ (decimal (length in_args.content)
                ++ (codes " bytes, was " ++ (decimal (length existing) ++ codes ")")))))

-- The value of a result without an error.
unfoldable pub if_ok {ℓ κ} : {E : Type ℓ} {A : Type κ} → Result E A → Option A
if_ok (ok a) = some a
if_ok (err e) = none

unfoldable pub ancestor :
    Bool → Text → Option (List Text × List Text) → Result Text (FilePath × List Text)
unfolding refuse_write codes
ancestor rooted name none = err (refuse_write name (codes ": no part of its path exists"))
ancestor rooted name (some (up, below)) = ok (record { rooted = rooted; up = up }, below)

-- The last test of `resolveForWrite`, on what `os.Stat` gives.
unfoldable pub no_directory : Text → FilePath → Result FileError FileInfo → Result Text FilePath
unfolding is_a_directory
no_directory name target (ok info) = if info.is_dir then err (is_a_directory name) else ok target
no_directory name target (err e) = ok target

module _ {W : Type 0} (disk : Disk W) where
  -- The first ancestor that exists, and the elements below it, the first one first.
  unfoldable pub walk_up : Bool → List Text → List Text → W → Option (List Text × List Text)
  walk_up rooted [] below w =
      if disk.exists_at (record { rooted = rooted; up = [] }) w then some ([], below) else none
  walk_up rooted (p ∷ up) below w =
      let higher = walk_up rooted up (p ∷ below) w in
      if disk.exists_at (record { rooted = rooted; up = p ∷ up }) w
      then some (p ∷ up, below)
      else higher

  -- The tests of `resolveForWrite` on the resolved ancestor and on the target.
  unfoldable pub check_target : Text → FilePath → FilePath → FilePath → W → Result Text FilePath
  unfolding under inside_git_dir refuse_write no_directory codes
  check_target name root base target w =
      if not (under root base)
      then err (refuse_write name (codes ": it resolves outside the working directory"))
      else if not (under root target)
      then err (refuse_write name (codes ": it resolves outside the working directory"))
      else if inside_git_dir root target
      then err (refuse_write name (codes ": .git is repository internals rather than the project"))
      else no_directory name target (disk.stat target w)

  unfoldable pub resolve_below : Text → FilePath → FilePath × List Text → W → Result Text FilePath
  unfolding or_text check_target join_parts
  resolve_below name root (existing, below) w = do
    base ← or_text (disk.eval_symlinks existing w)
    check_target name root base (join_parts base below) w

  unfoldable pub resolve_in : Text → FilePath → W → Result Text FilePath
  unfolding join_path walk_up ancestor resolve_below
  resolve_in name root w = do
    found ← ancestor root.rooted name (walk_up root.rooted (join_path root name).up [] w)
    resolve_below name root found w

  -- `resolveForWrite`
  unfoldable pub resolve_for_write : FilePath → Text → W → Result Text FilePath
  unfolding real_root resolve_in
  resolve_for_write root name w =
      real_root (disk.eval_symlinks root w) >>= (λ real. resolve_in name real w)

  -- `readIfPresent`
  unfoldable pub read_if_present : FilePath → W → Option Text
  unfolding if_ok
  read_if_present path w = if_ok (disk.read_file path w)

  unfoldable pub dir_exists : FilePath → W → Bool
  dir_exists path w = elim (disk.stat path w) [ ok info ↦ info.is_dir | err e ↦ false ]

  -- The first line of a preview of a new file, and the line on the directories that it makes.
  unfoldable pub new_file_head : WriteArgs → FilePath → W → Text
  unfolding line_count dir_of dir dir_exists show_path text_eq codes decimal
  new_file_head in_args target w =
      in_args.path
      ++ (codes " — NEW FILE, "
          ++ (decimal (line_count in_args.content)
              ++ (codes " line(s)"
                  ++ (if text_eq (show_path (dir_of in_args.path)) (codes ".")
                      then []
                      else if dir_exists (dir target) w
                      then []
                      else codes "\ncreates directory "
                        ++ (show_path (dir_of in_args.path) ++ codes "/")))))

  unfoldable pub write_preview_of : WriteArgs → FilePath → Option Text → W → Text
  unfolding new_file_head unified_diff text_eq codes
  write_preview_of in_args target none w =
      new_file_head in_args target w ++ (codes "\n" ++ unified_diff [] in_args.content)
  write_preview_of in_args target (some existing) w =
      if text_eq existing in_args.content
      then in_args.path ++ codes " — no change; the contents are already exactly this"
      else in_args.path ++ (codes "\n" ++ unified_diff existing in_args.content)

  unfoldable pub preview_args : FilePath → WriteArgs → W → Result Text Text
  unfolding resolve_for_write write_preview_of read_if_present
  preview_args root in_args w = do
    target ← resolve_for_write root in_args.path w
    ok (write_preview_of in_args target (read_if_present target w) w)

  unfoldable pub shown_text : Result Text Text → Text
  unfolding codes
  shown_text (ok text) = text
  shown_text (err e) = codes "cannot be written: " ++ e

  -- `writePreview`
  unfoldable pub write_preview : FilePath → Result Text WriteArgs → W → Text
  unfolding shown_text parse_write preview_args
  write_preview root decoded w =
      shown_text (parse_write decoded >>= (λ in_args. preview_args root in_args w))

  -- The arguments and the target of a write.
  unfoldable pub write_place :
      FilePath → Result Text WriteArgs → W → Result Text (WriteArgs × FilePath)
  unfolding parse_write resolve_for_write
  write_place root decoded w = do
    in_args ← parse_write decoded
    target ← resolve_for_write root in_args.path w
    ok (in_args, target)

module _ {W : Type 0} (disk : Disk W) (writer : Writer W) where
  unfoldable pub finish_write : WriteArgs → Option Text → Option Text × W → (Text × Option Text) × W
  unfolding wrote
  finish_write in_args had (some e, w) = (([], some e), w)
  finish_write in_args had (none, w) = ((wrote in_args had, none), w)

  unfoldable pub write_target : WriteArgs → FilePath → Option Text × W → (Text × Option Text) × W
  unfolding finish_write read_if_present codes
  write_target in_args target (some e, w) = (([], some (codes "creating the directory: " ++ e)), w)
  write_target in_args target (none, w) =
      finish_write in_args (read_if_present disk target w)
        (writer.write_file target in_args.content w)

  unfoldable pub write_resolved : W → Result Text (WriteArgs × FilePath) → (Text × Option Text) × W
  unfolding write_target dir
  write_resolved w (err e) = (([], some e), w)
  write_resolved w (ok (in_args, target)) =
      write_target in_args target (writer.mkdir_all (dir target) w)

  -- `Run` of `WriteFile`
  unfoldable pub run_write : FilePath → Result Text WriteArgs → W → (Text × Option Text) × W
  unfolding write_place write_resolved
  run_write root decoded w = write_resolved w (write_place disk root decoded w)
