-- ===== src/Examples/FileTools.antt =====
-- The file tools on a small disk: a working directory with a file, its `.git`, and a link that leads
-- out.
use mathlib.Core.Path.{◌≡◌, refl, subst}
use leartech_go_common.Base.{
  true, false, none, List, [], ◌∷◌, Text, codes, text_eq, decimal, length, ltb, if◌then◌else◌, ◌==◌,
  Bool-cases, inl, inr, arith, ◌⊎◌,
}
use leartech_go_common.Base.Int.{pos}
use leartech_go_common.Base.Results.{Result, ok, err, ok-injective}
use leartech_go_common.Base.Paths.{FilePath, show_path}
use leartech_go_common.Agent.Files.{
  FileError, Disk, max_bytes, read_under, read_range_under, range_of, range_text,
}
use leartech_go_common.Agent.Files.Contained.{IsReal, IsResolver, IsContained}
use leartech_go_common.Agent.Files.Reads.{IsReading, read_under-IsReading}
use leartech_go_common.Agent.Files.Lines.{range_of-chosen}
use leartech_go_common.Agent.Files.Write.{WriteArgs, Writer, run_write}
use leartech_go_common.Agent.Files.Write.Kept.{run_write-frame, IsWritten, run_write-IsWritten}

abbrev home : FilePath
home = record { rooted = true; up = codes "w" ∷ [] }

abbrev source : FilePath
source = record { rooted = true; up = codes "a.go" ∷ codes "w" ∷ [] }

-- Where the names on the disk lead.
abbrev places : List (Text × FilePath)
places =
    (codes "/w", home)
    ∷ (codes "/w/a.go", source)
    ∷ (codes "/w/link", record { rooted = true; up = codes "etc" ∷ [] })
    ∷ (codes "/w/.git", record { rooted = true; up = codes ".git" ∷ codes "w" ∷ [] })
    ∷ []

abbrev leads : Text → List (Text × FilePath) → Result FileError FilePath
leads s [] = err (record { missing = true; text = codes "no such file or directory" })
leads s ((t, p) ∷ ps) = if text_eq s t then ok p else leads s ps

abbrev AllReal : List (Text × FilePath) → Type 0
AllReal [] = Unit
AllReal ((t, p) ∷ ps) = IsReal p × AllReal ps

-- The state of the disk is the list of the paths written.
abbrev disk : Disk (List FilePath)
disk = record {
  eval_symlinks = λ p w. leads (show_path p) places;
  exists_at = λ p w. elim (leads (show_path p) places) [ ok q ↦ true | err e ↦ false ];
  stat = λ p w. ok (record { is_dir = length p.up == 1; size = 5 });
  read_file = λ p w. ok (codes "a\nb\nc\n");
  read_dir = λ p w. ok [];
  read_lines = λ n p w. ok (codes "a" ∷ codes "b" ∷ codes "c" ∷ [], none);
}

abbrev writer : Writer (List FilePath)
writer = record { mkdir_all = λ p w. (none, w); write_file = λ p content w. (none, p ∷ w) }

leads-IsReal :
    (s : Text) (ps : List (Text × FilePath)) (q : FilePath)
    → AllReal ps
    → leads s ps ≡ ok q
    → IsReal q
leads-IsReal s [] q h e = cc
leads-IsReal s ((t, p) ∷ ps) q (h, hs) e = elim (Bool-cases (text_eq s t)) [
  | inl here ↦ subst IsReal (ok-injective {E = FileError} (ground (arith, e, here))) h
  | inr on ↦ leads-IsReal s ps q hs (ground (arith, e, on))
]

places-AllReal : AllReal places
unfolding codes
places-AllReal = (
  (refl, ((refl, tt), tt)),
  (
    (refl, ((refl, (refl, (refl, (refl, tt)))), ((refl, tt), tt))),
    (
      (refl, ((refl, (refl, (refl, tt))), tt)),
      ((refl, ((refl, (refl, (refl, (refl, tt)))), ((refl, tt), tt))), tt),
    ),
  ),
)

disk-IsResolver : IsResolver disk
disk-IsResolver p q w rooted e = leads-IsReal (show_path p) places q places-AllReal e

home_leads : disk.eval_symlinks home [] ≡ ok home
unfolding show_path codes text_eq
home_leads = refl

-- A link out of the directory, and `.git`.
link_refused :
    read_under disk home (codes "link") []
    ≡ err (codes "refusing to open link: it resolves outside the working directory")
unfolding read_under show_path codes
link_refused = refl

git_refused :
    (run_write disk writer home
      (ok (record { path = codes ".git/config"; content = codes "x" }))
      []).1
    ≡ []
unfolding run_write show_path codes
git_refused = refl

two_lines :
    read_range_under disk home (codes "a.go") (pos 2) (pos 0) []
    ≡ ok (codes "// a.go lines 2-3 of 3\nb\nc\n")
unfolding read_range_under show_path codes decimal
two_lines = refl

reads_source : read_under disk home (codes "a.go") [] ≡ ok (codes "a\nb\nc\n")
unfolding read_under show_path codes
reads_source = refl

read_under-IsReading_example :
    (path : FilePath) × IsReading disk home (codes "a.go") [] (codes "a\nb\nc\n") path
read_under-IsReading_example =
    read_under-IsReading disk home (codes "a.go") [] (codes "a\nb\nc\n") disk-IsResolver refl
      reads_source

range_of-chosen_example :
    (range_of (codes "f") 2 1 (codes "a" ∷ codes "b" ∷ codes "c" ∷ [], none)
      ≡ range_text (codes "f") 2 none (record { line = 3; taken = 1; body = codes "b\n" }))
    ⊎ ((refused : Text) × (range_of (codes "f") 2 1 (codes "a" ∷ codes "b" ∷ codes "c" ∷ [], none)
          ≡ err refused)
        × (ltb max_bytes (length (codes "b\n")) ≡ true))
unfolding codes
range_of-chosen_example =
    range_of-chosen (codes "f") 2 1 (codes "a" ∷ codes "b" ∷ codes "c" ∷ []) none (omega arith)

abbrev edit : Result Text WriteArgs
edit = ok (record { path = codes "b.txt"; content = codes "hello" })

-- Every path written is below the working directory and not in `.git`.
abbrev AllInside : List FilePath → Type 0
AllInside [] = Unit
AllInside (p ∷ ps) = IsContained home p × AllInside ps

run_write-frame_example : AllInside (run_write disk writer home edit []).1
run_write-frame_example =
    run_write-frame disk writer AllInside home home edit [] disk-IsResolver refl home_leads
      (λ path inside w h. (h, λ content. (inside, h))) tt

edit_run : run_write disk writer home edit [] ≡ (
  (codes "wrote b.txt (5 bytes, was 6)", none),
  record { rooted = true; up = codes "b.txt" ∷ codes "w" ∷ [] } ∷ [],
)
unfolding run_write show_path codes decimal
edit_run = refl

run_write-IsWritten_example :
    IsWritten disk writer home edit []
      (codes "wrote b.txt (5 bytes, was 6)")
      (record { rooted = true; up = codes "b.txt" ∷ codes "w" ∷ [] } ∷ [])
run_write-IsWritten_example =
    run_write-IsWritten disk writer home home edit [] (codes "wrote b.txt (5 bytes, was 6)")
      (record { rooted = true; up = codes "b.txt" ∷ codes "w" ∷ [] } ∷ []) disk-IsResolver refl
      home_leads edit_run
