-- ===== src/Agent/Files.antt =====
-- pkg/agentloop/tools.go, the tools that read files: ReadFile and ListDir. `W` is the state of
-- everything outside. `Disk` is what the operating system answers. An error is its text.
pub mod Contained
pub mod Reads
pub mod Lines
pub mod Write
use leartech_go_common.Base.{
  ℕ, suc, ◌+◌, ◌-◌, Bool, true, false, not, ◌&&◌, ◌||◌, Option, none, some, List, [], ◌∷◌, ◌++◌,
  Text, codes, text_eq, has_prefix, contains, decimal, is_empty, length, take, ltb, ◌==◌,
  if◌then◌else◌,
}
use leartech_go_common.Base.Int.{ℤ, pos, pos_part, ltb_ℤ, eq_ℤ, show_int}
use leartech_go_common.Base.Results.{Result, ok, err, ◌>>=◌}
use leartech_go_common.Base.Paths.{slash, FilePath, clean, join_path, show_path, rel}
use leartech_go_common.Agent.Guard.{reads}
use leartech_go_common.Agent.Tools.{Tool}

-- An error of the operating system: whether `os.IsNotExist` holds of it, and its text.
pub record FileError : Type 0 where
  pub missing : Bool
  pub text : Text

pub record FileInfo : Type 0 where
  pub is_dir : Bool
  pub size : ℕ

-- A directory entry, with the size that `Info` gives, if it gives one.
pub record DirEntry : Type 0 where
  pub name : Text
  pub is_dir : Bool
  pub info : Option ℕ

-- `filepath.EvalSymlinks`, `os.Lstat` without an error, `os.Stat`, `os.ReadFile`, `os.ReadDir`, and the
-- lines of a file as a scanner with a given buffer gives them, with the error that it ends with.
pub record Disk (W : Type 0) : Type 0 where
  pub eval_symlinks : FilePath → W → Result FileError FilePath
  pub exists_at : FilePath → W → Bool
  pub stat : FilePath → W → Result FileError FileInfo
  pub read_file : FilePath → W → Result FileError Text
  pub read_dir : FilePath → W → Result FileError (List DirEntry)
  pub read_lines : ℕ → FilePath → W → Result FileError (List Text × Option Text)

-- `under`
unfoldable pub under : FilePath → FilePath → Bool
unfolding show_path text_eq has_prefix
under root path =
    if text_eq (show_path path) (show_path root)
    then true
    else has_prefix (show_path path) (show_path root ++ slash ∷ [])

unfoldable pub has_git : Option (List Text) → Bool
unfolding contains codes
has_git none = false
has_git (some parts) = contains parts (codes ".git")

unfoldable pub inside_git_dir : FilePath → FilePath → Bool
unfolding has_git rel
inside_git_dir root resolved = has_git (rel root resolved)

-- The error of the operating system as it is.
unfoldable pub or_text {ℓ} : {A : Type ℓ} → Result FileError A → Result Text A
or_text (ok a) = ok a
or_text (err e) = err e.text

unfoldable pub real_root : Result FileError FilePath → Result Text FilePath
unfolding codes
real_root (ok p) = ok p
real_root (err e) = err (codes "working directory is unreadable: " ++ e.text)

unfoldable pub resolved_path : Text → Result FileError FilePath → Result Text FilePath
unfolding codes
resolved_path name (ok p) = ok p
resolved_path name (err e) = err (if e.missing then codes "no such file: " ++ name else e.text)

-- The two refusals of `resolveUnder`.
unfoldable pub check_inside : Text → FilePath → FilePath → Result Text (FilePath × FilePath)
unfolding under inside_git_dir codes
check_inside name root resolved =
    if not (under root resolved)
    then err
        (codes "refusing to open " ++ (name ++ codes ": it resolves outside the working directory"))
    else if inside_git_dir root resolved
    then err (
        codes "refusing to open "
        ++ (name
            ++ codes
                ": .git is repository internals rather than the project, and in some clones its config holds a credential. Ask for what you actually need"))
    else ok (root, resolved)

unfoldable pub is_a_directory : Text → Text
unfolding codes
is_a_directory name = name ++ codes " is a directory"

abbrev pub max_bytes : ℕ
max_bytes = 262144

unfoldable pub too_large : Text → ℕ → Text
unfolding codes decimal
too_large name size =
    name
    ++ (codes " is "
        ++ (decimal size
            ++ (codes " bytes; the limit is "
                ++ (decimal max_bytes ++ codes " because the contents are sent to the model"))))

-- What `ListDir` writes for an entry.
unfoldable pub entry_line : DirEntry → Text
unfolding codes decimal
entry_line e = if e.is_dir then e.name ++ codes "/\n" else elim e.info [
  | some size ↦ e.name ++ (codes " (" ++ (decimal size ++ codes " bytes)\n"))
  | none ↦ e.name ++ codes "\n"
]

unfoldable pub entry_lines : List DirEntry → Text
unfolding entry_line
entry_lines [] = []
entry_lines (e ∷ es) = entry_line e ++ entry_lines es

abbrev pub max_entries : ℕ
max_entries = 300

unfoldable pub listing : Text → List DirEntry → Text
unfolding entry_lines codes decimal
listing name [] = name ++ codes " is empty"
listing name (e ∷ es) =
    entry_lines (take max_entries (e ∷ es))
    ++ (if ltb max_entries (length (e ∷ es))
        then codes "\n("
          ++ (decimal max_entries
              ++ (codes " of "
                  ++ (decimal (length (e ∷ es))
                      ++ codes " entries shown; the rest were not listed)\n")))
        else [])

-- The lines read, the lines taken and the text so far of `readRangeUnder`.
pub record Range : Type 0 where
  pub line : ℕ
  pub taken : ℕ
  pub body : Text

unfoldable pub range_too_large : Text → ℕ → ℕ → Text
unfolding codes decimal
range_too_large name offset line =
    codes "lines "
    ++ (decimal offset
        ++ (codes "-"
            ++ (decimal line
                ++ (codes " of "
                    ++ (name
                        ++ (codes " exceed "
                            ++ (decimal max_bytes ++ codes " bytes; ask for fewer")))))))

-- The body of the loop over the lines.
unfoldable pub range_line : Text → ℕ → ℕ → Text → Range → Result Text Range
unfolding range_too_large
range_line name offset limit text r =
    let line = suc r.line in
    if ltb line offset || (ltb 0 limit && r.taken == limit)
    then ok (record r { line = line })
    else if ltb max_bytes (length r.body)
    then err (range_too_large name offset line)
    else ok (record { line = line; taken = suc r.taken; body = r.body ++ (text ++ 0x0A ∷ []) })

unfoldable pub range_lines : Text → ℕ → ℕ → List Text → Range → Result Text Range
unfolding range_line
range_lines name offset limit [] r = ok r
range_lines name offset limit (text ∷ texts) r =
    range_line name offset limit text r >>= range_lines name offset limit texts

-- What follows the loop, with `sc.Err()`.
unfoldable pub range_text : Text → ℕ → Option Text → Range → Result Text Text
unfolding codes decimal
range_text name offset (some e) r = err (codes "reading " ++ (name ++ (codes ": " ++ e)))
range_text name offset none r =
    if ltb r.line offset
    then err (
        name
        ++ (codes " has "
            ++ (decimal r.line
                ++ (codes " lines; offset " ++ (decimal offset ++ codes " is past the end")))))
    else ok (
        codes "// "
        ++ (name
            ++ (codes " lines "
                ++ (decimal offset
                    ++ (codes "-"
                        ++ (decimal (offset + r.taken - 1)
                            ++ (codes " of " ++ (decimal r.line ++ (codes "\n" ++ r.body)))))))))

abbrev pub no_lines : Range
no_lines = record { line = 0; taken = 0; body = [] }

-- `if offset == 0 { offset = 1 }`
unfoldable pub first_line : ℤ → ℕ
first_line offset = if eq_ℤ offset (pos 0) then 1 else pos_part offset

unfoldable pub range_of : Text → ℕ → ℕ → List Text × Option Text → Result Text Text
unfolding range_lines range_text
range_of name offset limit (texts, e) = do
  r ← range_lines name offset limit texts no_lines
  range_text name offset e r

unfoldable pub negative_range : ℤ → ℤ → Text
unfolding codes show_int
negative_range offset limit =
    codes "offset and limit count lines and cannot be negative (got offset="
    ++ (show_int offset ++ (codes " limit=" ++ (show_int limit ++ codes ")")))

module _ {W : Type 0} (disk : Disk W) where
  unfoldable pub resolve_under : FilePath → Text → W → Result Text (FilePath × FilePath)
  unfolding real_root resolved_path check_inside join_path
  resolve_under root name w = do
    real ← real_root (disk.eval_symlinks root w)
    resolved ← resolved_path name (disk.eval_symlinks (join_path real name) w)
    check_inside name real resolved

  unfoldable pub read_checked : Text → FilePath → FileInfo → W → Result Text Text
  unfolding is_a_directory too_large or_text
  read_checked name path info w =
      if info.is_dir
      then err (is_a_directory name)
      else if ltb max_bytes info.size
      then err (too_large name info.size)
      else or_text (disk.read_file path w)

  unfoldable pub read_under : FilePath → Text → W → Result Text Text
  unfolding resolve_under read_checked or_text
  read_under root name w = do
    paths ← resolve_under root name w
    info ← or_text (disk.stat paths.1 w)
    read_checked name paths.1 info w

  unfoldable pub range_checked : Text → ℤ → ℤ → FilePath → FileInfo → W → Result Text Text
  unfolding is_a_directory negative_range first_line range_of or_text
  range_checked name offset limit path info w =
      if info.is_dir
      then err (is_a_directory name)
      else if ltb_ℤ offset (pos 0) || ltb_ℤ limit (pos 0)
      then err (negative_range offset limit)
      else (or_text (disk.read_lines max_bytes path w)
          >>= range_of name (first_line offset) (pos_part limit))

  unfoldable pub read_range_under : FilePath → Text → ℤ → ℤ → W → Result Text Text
  unfolding resolve_under range_checked or_text
  read_range_under root name offset limit w = do
    paths ← resolve_under root name w
    info ← or_text (disk.stat paths.1 w)
    range_checked name offset limit paths.1 info w

  unfoldable pub list_checked : Text → FilePath → FileInfo → W → Result Text Text
  unfolding listing or_text codes
  list_checked name path info w =
      if not info.is_dir
      then err (name ++ codes " is a file, not a directory; read it with local__read_file")
      else (or_text (disk.read_dir path w) >>= (λ entries. ok (listing name entries)))

  unfoldable pub list_under : FilePath → Text → W → Result Text Text
  unfolding resolve_under list_checked or_text
  list_under root name w = do
    paths ← resolve_under root name w
    info ← or_text (disk.stat paths.1 w)
    list_checked name paths.1 info w
