-- ===== src/Agent/Files/Reads.antt =====
-- pkg/agentloop/tools.go: what `ReadFile` reads.
use mathlib.Core.Path.{◌≡◌}
use mathlib.Core.Logic.{inl, inr}
use native.Mathlib.Omega.{arith}
use leartech_go_common.Base.{true, false, Text, ltb, Bool-cases}
use leartech_go_common.Base.Results.{ok, ◌>>=◌, >>=-eq-ok}
use leartech_go_common.Base.Paths.{FilePath}
use leartech_go_common.Agent.Files.{
  FileInfo, Disk, or_text, max_bytes, resolve_under, read_checked, read_under,
}
use leartech_go_common.Agent.Files.Contained.{
  IsResolver, Reaches, resolve_under-Reaches, or_text-eq-ok,
}

module _ {W : Type 0} (disk : Disk W) where
  read_checked-eq-ok :
      (name : Text) (path : FilePath) (info : FileInfo) (w : W) (t : Text)
      → read_checked disk name path info w ≡ ok t
      → (disk.read_file path w ≡ ok t) × (info.is_dir ≡ false) × (ltb max_bytes info.size ≡ false)
  unfolding read_checked
  read_checked-eq-ok name path info w t h = elim (Bool-cases info.is_dir) [
    | inl d ↦ absurd (ground (arith, h, d))
    | inr d ↦ elim (Bool-cases (ltb max_bytes info.size)) [
      | inl big ↦ absurd (ground (arith, h, d, big))
      | inr small ↦
          (or_text-eq-ok (disk.read_file path w) t (ground (arith, h, d, small)), d, small)
    ]
  ]

  -- `path` is a file that the name leads to, not too large, and `t` is what it contains.
  abbrev pub IsReading : FilePath → Text → W → Text → FilePath → Type 0
  IsReading root name w t path =
      Reaches disk root name w path
      × (disk.read_file path w ≡ ok t)
      × ((info : FileInfo) × (disk.stat path w ≡ ok info)
          × (info.is_dir ≡ false)
          × (ltb max_bytes info.size ≡ false))

  -- When `readUnder` gives a text for a name, then the name, resolved with all its links, leads to a
  -- path that is the resolved root and some further elements, none of which is `.git`, the file at
  -- that path is no directory and has at most `maxBytes` bytes, and the text is what that file
  -- contains. Given that the root is an absolute path, and that `EvalSymlinks` gives a clean absolute
  -- path for an absolute path.
  pub read_under-IsReading :
      (root : FilePath) (name : Text) (w : W) (t : Text)
      → IsResolver disk
      → root.rooted ≡ true
      → read_under disk root name w ≡ ok t
      → (path : FilePath) × IsReading root name w t path
  unfolding read_under
  read_under-IsReading root name w t clean hr h =
      let (q, a, h1) =
        >>=-eq-ok (resolve_under disk root name w)
          (λ paths. do info ← or_text (disk.stat paths.1 w); read_checked disk name paths.1 info w)
          h in
      let (info, b, h2) =
        >>=-eq-ok (or_text (disk.stat q.1 w)) (λ info. read_checked disk name q.1 info w) h1 in
      let (text, d, size) = read_checked-eq-ok name q.1 info w t h2 in
      (
        q.1,
        (
          resolve_under-Reaches disk root name w q clean hr a,
          text,
          (info, or_text-eq-ok (disk.stat q.1 w) info b, d, size),
        ),
      )
