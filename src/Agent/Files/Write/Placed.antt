-- ===== src/Agent/Files/Write/Placed.antt =====
-- pkg/agentloop/write.go: where `WriteFile` writes.
use mathlib.Core.Path.{◌≡◌, refl, sym, ap, ◌∙◌, subst}
use mathlib.Core.List.{reverse, reverse_aux}
use mathlib.Core.Logic.{inl, inr}
use native.Mathlib.Omega.{arith}
use leartech_go_common.Base.{
  ℕ, Bool, true, false, some, List, [], ◌∷◌, ◌++◌, Text, codes, text_eq, ◌==◌, Bool-cases,
  Option-cases,
}
use leartech_go_common.Base.Results.{Result, ok, err, ◌>>=◌, >>=-eq-ok, ok-injective}
use leartech_go_common.Base.Paths.{
  slash, FilePath, read_path, split_path, parent, push_part, clean_below, join_path, join_parts,
}
use leartech_go_common.Base.Paths.Under.{IsElement, AreElements}
use leartech_go_common.Agent.Files.{
  FileError, FileInfo, Disk, under, inside_git_dir, or_text, real_root,
}
use leartech_go_common.Agent.Files.Contained.{
  IsName-IsElement, AreNames, IsReal, IsResolver, IsContained, under-IsContained, or_text-eq-ok,
}
use leartech_go_common.Agent.Files.Write.{
  WriteArgs, parse_write, no_directory, walk_up, ancestor, check_target, resolve_below, resolve_in,
  resolve_for_write, write_place,
}

some-injective {ℓ} : {A : Type ℓ} {a b : A} → some a ≡ some b → a ≡ b
some-injective h = cc

IsElement-snoc :
    (part : Text) (c : ℕ) → IsElement part → (c == slash) ≡ false → IsElement (part ++ c ∷ [])
IsElement-snoc [] c h on = (on, tt)
IsElement-snoc (d ∷ part) c (off, h) on = (off, IsElement-snoc part c h on)

read_path-AreElements :
    (up : List Text) (part s : Text)
    → AreElements up
    → IsElement part
    → AreElements (read_path up part s).0 × IsElement (read_path up part s).1
unfolding read_path
read_path-AreElements up part [] h hp = (h, hp)
read_path-AreElements up part (c ∷ s) h hp = elim (Bool-cases (c == slash)) [
  | inl cut ↦ rw cut (read_path-AreElements (part ∷ up) [] s (hp, h) tt)
  | inr on ↦ rw on (read_path-AreElements up (part ++ c ∷ []) s h (IsElement-snoc part c hp on))
]

split_path-AreElements : (s : Text) → AreElements (split_path s)
unfolding split_path
split_path-AreElements s = let (h, hp) = read_path-AreElements [] [] s tt tt in (hp, h)

parent-AreNames : (up : List Text) → AreNames up → AreNames (parent true up)
unfolding parent
parent-AreNames [] h = h
parent-AreNames (p ∷ up) h = elim (Bool-cases (text_eq p (codes ".."))) [
  | inl dots ↦ rw dots ((refl, (refl, tt)), h)
  | inr other ↦ rw other h.1
]

push_part-AreNames :
    (p : Text) (up : List Text) → IsElement p → AreNames up → AreNames (push_part true p up)
unfolding push_part
push_part-AreNames [] up hp h = h
push_part-AreNames (c ∷ p) up hp h = elim (Bool-cases (text_eq (c ∷ p) (codes "."))) [
  | inl here ↦ rw here h
  | inr there ↦ elim (Bool-cases (text_eq (c ∷ p) (codes ".."))) [
    | inl dots ↦ rw (there, dots) (parent-AreNames up h)
    | inr other ↦ rw (there, other) (hp, h)
  ]
]

clean_below-AreNames :
    (up ps : List Text) → AreElements ps → AreNames up → AreNames (clean_below true up ps)
unfolding clean_below
clean_below-AreNames up [] hp h = h
clean_below-AreNames up (p ∷ ps) (hp, hps) h =
    push_part-AreNames p (clean_below true up ps) hp (clean_below-AreNames up ps hps h)

AreElements-reverse_aux :
    (ps acc : List Text) → AreNames ps → AreElements acc → AreElements (reverse_aux ps acc)
AreElements-reverse_aux [] acc h ha = ha
AreElements-reverse_aux (p ∷ ps) acc (h, hs) ha =
    AreElements-reverse_aux ps (p ∷ acc) hs (IsName-IsElement p h, ha)

join_path-IsReal : (p : FilePath) (s : Text) → IsReal p → IsReal (join_path p s)
unfolding join_path
join_path-IsReal p s (h, hs) = (
  h,
  subst (λ b. AreNames (clean_below b p.up (split_path s))) (sym h)
      (clean_below-AreNames p.up (split_path s) (split_path-AreElements s) hs),
)

join_parts-IsReal :
    (p : FilePath) (ps : List Text) → IsReal p → AreNames ps → IsReal (join_parts p ps)
unfolding join_parts
join_parts-IsReal p ps (h, hs) hp = (
  h,
  subst (λ b. AreNames (clean_below b p.up (reverse ps))) (sym h)
      (clean_below-AreNames p.up (reverse ps) (AreElements-reverse_aux ps [] hp tt) hs),
)

no_directory-eq-ok :
    (name : Text) (target : FilePath) (r : Result FileError FileInfo) (t : FilePath)
    → no_directory name target r ≡ ok t
    → target ≡ t
unfolding no_directory
no_directory-eq-ok name target (err e) t h = ok-injective h
no_directory-eq-ok name target (ok info) t h = elim (Bool-cases info.is_dir) [
  | inl d ↦ absurd (ground (arith, h, d))
  | inr d ↦ ok-injective {E = Text} (ground (arith, h, d))
]

module _ {W : Type 0} (disk : Disk W) where
  walk_up-AreNames :
      (rooted : Bool) (up below : List Text) (w : W) (found : List Text × List Text)
      → AreNames up
      → AreNames below
      → walk_up disk rooted up below w ≡ some found
      → AreNames found.0 × AreNames found.1
  unfolding walk_up
  walk_up-AreNames rooted [] below w found hu hb h =
      elim (Bool-cases (disk.exists_at (record { rooted = rooted; up = [] }) w)) [
        | inl here ↦
            subst (λ (f : List Text × List Text). AreNames f.0 × AreNames f.1)
              (some-injective {a = ([], below)} (ground (arith, h, here))) (tt, hb)
        | inr none_here ↦ absurd (ground (arith, h, none_here))
      ]
  walk_up-AreNames rooted (p ∷ up) below w found (hp, hu) hb h =
      elim (Bool-cases (disk.exists_at (record { rooted = rooted; up = p ∷ up }) w)) [
        | inl here ↦
            subst (λ (f : List Text × List Text). AreNames f.0 × AreNames f.1)
              (some-injective {a = (p ∷ up, below)} (ground (arith, h, here))) ((hp, hu), hb)
        | inr higher ↦
            walk_up-AreNames rooted up (p ∷ below) w found hu (hp, hb) (ground (arith, h, higher))
      ]

  check_target-eq-ok :
      (name : Text) (root base target : FilePath) (w : W) (t : FilePath)
      → check_target disk name root base target w ≡ ok t
      → (target ≡ t) × (under root target ≡ true) × (inside_git_dir root target ≡ false)
  unfolding check_target
  check_target-eq-ok name root base target w t h = elim (Bool-cases (under root base)) [
    | inr outside ↦ absurd (ground (arith, h, outside))
    | inl above ↦ elim (Bool-cases (under root target)) [
      | inr outside ↦ absurd (ground (arith, h, above, outside))
      | inl inside ↦ elim (Bool-cases (inside_git_dir root target)) [
        | inl git ↦ absurd (ground (arith, h, above, inside, git))
        | inr clean ↦ (
          no_directory-eq-ok name target (disk.stat target w) t
              (ground (arith, h, above, inside, clean)),
          inside,
          clean,
        )
      ]
    ]
  ]

  resolve_below-IsContained :
      (name : Text) (root existing : FilePath) (below : List Text) (w : W) (t : FilePath)
      → IsResolver disk
      → IsReal root
      → IsReal existing
      → AreNames below
      → resolve_below disk name root (existing, below) w ≡ ok t
      → IsContained root t
  unfolding resolve_below
  resolve_below-IsContained name root existing below w t clean hr he hb h =
      let (base, a, h1) =
        >>=-eq-ok (or_text (disk.eval_symlinks existing w))
          (λ base. check_target disk name root base (join_parts base below) w) h in
      let real =
        clean existing base w he.0 (or_text-eq-ok (disk.eval_symlinks existing w) base a) in
      let (same, inside, git) = check_target-eq-ok name root base (join_parts base below) w t h1 in
      subst (IsContained root) same (
        under-IsContained root (join_parts base below) hr (join_parts-IsReal base below real hb)
          inside git)

  ancestor-IsReal :
      (rooted : Bool) (name : Text) (up : List Text) (w : W) (found : FilePath × List Text)
      → rooted ≡ true
      → AreNames up
      → ancestor rooted name (walk_up disk rooted up [] w) ≡ ok found
      → IsReal found.0 × AreNames found.1
  unfolding ancestor
  ancestor-IsReal rooted name up w found hr hu h =
      elim (Option-cases (walk_up disk rooted up [] w)) [
        | inl nowhere ↦ absurd (ground (arith, h, nowhere))
        | inr (place, e) ↦
            let (hp, hb) = walk_up-AreNames rooted up [] w place hu tt e in
            subst (λ (f : FilePath × List Text). IsReal f.0 × AreNames f.1)
              (ok-injective {E = Text} (ap (ancestor rooted name) (sym e) ∙ h)) ((hr, hp), hb)
      ]

  resolve_in-IsContained :
      (name : Text) (root : FilePath) (w : W) (t : FilePath)
      → IsResolver disk
      → IsReal root
      → resolve_in disk name root w ≡ ok t
      → IsContained root t
  unfolding resolve_in
  resolve_in-IsContained name root w t clean hr h =
      let full = join_path-IsReal root name hr in
      let (found, a, h1) =
        >>=-eq-ok
          (ancestor root.rooted name (walk_up disk root.rooted (join_path root name).up [] w))
          (λ found. resolve_below disk name root found w) h in
      let (he, hb) =
        ancestor-IsReal root.rooted name (join_path root name).up w found hr.0 full.1 a in
      resolve_below-IsContained name root found.0 found.1 w t clean hr he hb h1

  -- The target of a write is below the root's own place, and not in `.git`.
  resolve_for_write-IsContained :
      (root real : FilePath) (name : Text) (w : W) (t : FilePath)
      → IsResolver disk
      → root.rooted ≡ true
      → disk.eval_symlinks root w ≡ ok real
      → resolve_for_write disk root name w ≡ ok t
      → IsContained real t
  unfolding resolve_for_write real_root
  resolve_for_write-IsContained root real name w t clean hr e h =
      resolve_in-IsContained name real w t clean (clean root real w hr e)
        (ap (λ r. real_root r >>= (λ p. resolve_in disk name p w)) (sym e) ∙ h)

  pub write_place-IsContained :
      (root real : FilePath) (decoded : Result Text WriteArgs) (w : W) (q : WriteArgs × FilePath)
      → IsResolver disk
      → root.rooted ≡ true
      → disk.eval_symlinks root w ≡ ok real
      → write_place disk root decoded w ≡ ok q
      → IsContained real q.1
  unfolding write_place
  write_place-IsContained root real decoded w q clean hr e h =
      let (in_args, a, h1) =
        >>=-eq-ok (parse_write decoded)
          (λ in_args. do target ← resolve_for_write disk root in_args.path w; ok (in_args, target))
          h in
      let (target, b, h2) =
        >>=-eq-ok (resolve_for_write disk root in_args.path w) (λ target. ok (in_args, target))
          h1 in
      subst (λ (r : WriteArgs × FilePath). IsContained real r.1) (ok-injective h2)
        (resolve_for_write-IsContained root real in_args.path w target clean hr e b)
