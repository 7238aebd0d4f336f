-- ===== src/Agent/Files/Write/Kept.antt =====
-- pkg/agentloop/write.go: what a run of `WriteFile` does to the disk.
use mathlib.Core.Path.{◌≡◌, refl, sym, ap, ◌∙◌, subst}
use mathlib.Core.Logic.{inl, inr}
use native.Mathlib.Omega.{arith}
use leartech_go_common.Base.{
  true, false, Option, none, some, Text, Bool-cases, length, ltb, is_empty,
}
use leartech_go_common.Base.Results.{Result, ok, err, ◌>>=◌, >>=-eq-ok, ok-injective}
use leartech_go_common.Base.Paths.{FilePath, dir}
use leartech_go_common.Agent.Files.{Disk}
use leartech_go_common.Agent.Files.Contained.{IsResolver, IsContained}
use leartech_go_common.Agent.Files.Write.{
  WriteArgs, Writer, max_write_bytes, wrote, check_write, parse_write, resolve_for_write,
  finish_write, write_target, write_resolved, write_place, read_if_present, run_write,
}
use leartech_go_common.Agent.Files.Write.Placed.{write_place-IsContained}

some≢none : {A : Type 0} {a : A} → some a ≡ none → ⊥
some≢none h = cc

check_write-eq-ok :
    (in_args out : WriteArgs)
    → check_write in_args ≡ ok out
    → (in_args ≡ out) × (ltb max_write_bytes (length in_args.content) ≡ false)
unfolding check_write
check_write-eq-ok in_args out h = elim (Bool-cases (is_empty in_args.path)) [
  | inl blank ↦ absurd (ground (arith, h, blank))
  | inr named ↦ elim (Bool-cases (ltb max_write_bytes (length in_args.content))) [
    | inl big ↦ absurd (ground (arith, h, named, big))
    | inr fits ↦ (ok-injective {E = Text} (ground (arith, h, named, fits)), fits)
  ]
]

parse_write-eq-ok :
    (decoded : Result Text WriteArgs) (out : WriteArgs)
    → parse_write decoded ≡ ok out
    → (decoded ≡ ok out) × (ltb max_write_bytes (length out.content) ≡ false)
unfolding parse_write
parse_write-eq-ok (err e) out h = cc
parse_write-eq-ok (ok in_args) out h =
    let (same, fits) = check_write-eq-ok in_args out h in
    (
      ap ok same,
      subst (λ (a : WriteArgs). ltb max_write_bytes (length a.content) ≡ false) same fits,
    )

write_place-args :
    {W : Type 0} (disk : Disk W) (root : FilePath) (decoded : Result Text WriteArgs) (w : W)
    (q : WriteArgs × FilePath)
    → write_place disk root decoded w ≡ ok q
    → (in_args : WriteArgs) × (parse_write decoded ≡ ok in_args) × (in_args ≡ q.0)
unfolding write_place
write_place-args disk root decoded w q h =
    let (in_args, a, h1) =
      >>=-eq-ok (parse_write decoded)
        (λ in_args. do target ← resolve_for_write disk root in_args.path w; ok (in_args, target))
        h in
    let (target, b, h2) =
      >>=-eq-ok (resolve_for_write disk root in_args.path w) (λ target. ok (in_args, target)) h1 in
    (in_args, a, ap (λ (r : WriteArgs × FilePath). r.0) (ok-injective h2))

module _ {W : Type 0} (disk : Disk W) (writer : Writer W) where
  -- A property of the world that no making of a path's directory and no write of the path ends, for a
  -- path below `real` outside `.git`.
  abbrev pub IsKeptIn : FilePath → (W → Type 0) → Type 0
  IsKeptIn real P =
      (path : FilePath)
      → IsContained real path
      → (w : W) → P w
      → P (writer.mkdir_all (dir path) w).1
        × ((content : Text) → P (writer.write_file path content w).1)

  -- The rest of the run after the directories are made.
  finish_write_world :
      (in_args : WriteArgs) (had : Option Text) (r : Option Text × W)
      → (finish_write disk writer in_args had r).1 ≡ r.1
  unfolding finish_write
  finish_write_world in_args had (none, w) = refl
  finish_write_world in_args had (some e, w) = refl

  write_target-Kept :
      (P : W → Type 0) (in_args : WriteArgs) (target : FilePath) (r : Option Text × W)
      → P r.1
      → P (writer.write_file target in_args.content r.1).1
      → P (write_target disk writer in_args target r).1
  unfolding write_target
  write_target-Kept P in_args target (some e, w) made written = made
  write_target-Kept P in_args target (none, w) made written =
      subst P
        (sym (
          finish_write_world in_args (read_if_present disk target w)
            (writer.write_file target in_args.content w)))
        written

  write_resolved-Kept :
      (P : W → Type 0) (real : FilePath) (w : W) (r : Result Text (WriteArgs × FilePath))
      → ((q : WriteArgs × FilePath) → r ≡ ok q → IsContained real q.1)
      → IsKeptIn real P
      → P w
      → P (write_resolved disk writer w r).1
  unfolding write_resolved
  write_resolved-Kept P real w (err e) contained keeps h = h
  write_resolved-Kept P real w (ok (in_args, target)) contained keeps h =
      let inside = contained (in_args, target) refl in
      let made = (keeps target inside w h).0 in
      write_target-Kept P in_args target (writer.mkdir_all (dir target) w) made
        ((keeps target inside (writer.mkdir_all (dir target) w).1 made).1 in_args.content)

  -- A property of the disk that holds before a call of `local__write_file` holds after it, whatever
  -- the arguments and the outcome, if it is kept by the writes of the paths that are the resolved root
  -- and some further elements of which none is `.git`, and by the makings of their directories: the
  -- tool changes nothing else. Given that the root is an absolute path that resolves, and that
  -- `EvalSymlinks` gives a clean absolute path for an absolute path.
  pub run_write-frame :
      (P : W → Type 0) (root real : FilePath) (decoded : Result Text WriteArgs) (w : W)
      → IsResolver disk
      → root.rooted ≡ true
      → disk.eval_symlinks root w ≡ ok real
      → IsKeptIn real P
      → P w
      → P (run_write disk writer root decoded w).1
  unfolding run_write
  run_write-frame P root real decoded w clean hr e keeps h =
      write_resolved-Kept P real w (write_place disk root decoded w)
        (λ q. write_place-IsContained disk root real decoded w q clean hr e) keeps h

  finish_write-written :
      (in_args : WriteArgs) (had : Option Text) (r : Option Text × W) (out : Text) (v : W)
      → finish_write disk writer in_args had r ≡ ((out, none), v)
      → (r ≡ (none, v)) × (out ≡ wrote in_args had)
  unfolding finish_write
  finish_write-written in_args had (some e, w) out v h = absurd (some≢none (ap (λ x. x.0.1) h))
  finish_write-written in_args had (none, w) out v h =
      (ap (λ x. (none, x.1)) h, sym (ap (λ x. x.0.0) h))

  -- The directories above `target` are made, then `content` is the whole of the file, and the text
  -- tells of what was there before.
  abbrev IsWriting : WriteArgs → FilePath → Option Text × W → Text → W → Type 0
  IsWriting in_args target made out v =
      (made.0 ≡ none)
      × (writer.write_file target in_args.content made.1 ≡ (none, v))
      × (out ≡ wrote in_args (read_if_present disk target made.1))

  write_target-IsWriting :
      (in_args : WriteArgs) (target : FilePath) (made : Option Text × W) (out : Text) (v : W)
      → write_target disk writer in_args target made ≡ ((out, none), v)
      → IsWriting in_args target made out v
  unfolding write_target
  write_target-IsWriting in_args target (some e, w) out v h = absurd (some≢none (ap (λ x. x.0.1) h))
  write_target-IsWriting in_args target (none, w) out v h =
      let (written, told) =
        finish_write-written in_args (read_if_present disk target w)
          (writer.write_file target in_args.content w) out v h in
      (refl, written, told)

  write_resolved-IsWriting :
      (w : W) (r : Result Text (WriteArgs × FilePath)) (out : Text) (v : W)
      → write_resolved disk writer w r ≡ ((out, none), v)
      → (q : WriteArgs × FilePath) × (r ≡ ok q)
        × IsWriting q.0 q.1 (writer.mkdir_all (dir q.1) w) out v
  unfolding write_resolved
  write_resolved-IsWriting w (err e) out v h = absurd (some≢none (ap (λ x. x.0.1) h))
  write_resolved-IsWriting w (ok (in_args, target)) out v h = (
    (in_args, target),
    refl,
    write_target-IsWriting in_args target (writer.mkdir_all (dir target) w) out v h,
  )

  -- What a call has done that reports a success.
  abbrev pub IsWritten : FilePath → Result Text WriteArgs → W → Text → W → Type 0
  IsWritten real decoded w out v =
      (in_args : WriteArgs) × (target : FilePath) × (decoded ≡ ok in_args)
      × (ltb max_write_bytes (length in_args.content) ≡ false)
      × IsContained real target
      × IsWriting in_args target (writer.mkdir_all (dir target) w) out v

  -- When a call of `local__write_file` reports a success, then the arguments were decoded, their
  -- content is not longer than `maxWriteBytes`, and there is a target, which is the resolved root and
  -- some further elements of which none is `.git`, such that the directories above it were made and
  -- the last thing done to the disk was the write of the whole content to it, without an error. The
  -- text says how many bytes were written and how many were there before, or that the file is new.
  -- Given that the root is an absolute path that resolves, and that `EvalSymlinks` gives a clean
  -- absolute path for an absolute path.
  pub run_write-IsWritten :
      (root real : FilePath) (decoded : Result Text WriteArgs) (w : W) (out : Text) (v : W)
      → IsResolver disk
      → root.rooted ≡ true
      → disk.eval_symlinks root w ≡ ok real
      → run_write disk writer root decoded w ≡ ((out, none), v)
      → IsWritten real decoded w out v
  unfolding run_write
  run_write-IsWritten root real decoded w out v clean hr e h =
      let (q, place, writing) =
        write_resolved-IsWriting w (write_place disk root decoded w) out v h in
      let (in_args, parsed, same) = write_place-args disk root decoded w q place in
      let (known, size) = parse_write-eq-ok decoded in_args parsed in
      (
        q.0,
        q.1,
        known ∙ ap ok same,
        subst (λ (a : WriteArgs). ltb max_write_bytes (length a.content) ≡ false) same size,
        write_place-IsContained disk root real decoded w q clean hr e place,
        writing,
      )
