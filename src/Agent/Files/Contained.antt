-- ===== src/Agent/Files/Contained.antt =====
-- pkg/agentloop/tools.go: what `resolveUnder` lets through, and what the tools then read.
use mathlib.Core.Path.{◌≡◌, refl, sym, ap, ◌∙◌, subst}
use mathlib.Core.List.{append-nil, reverse}
use mathlib.Core.Logic.{inl, inr}
use native.Mathlib.Omega.{arith}
use leartech_go_common.Base.{
  true, false, List, [], ◌∷◌, ◌++◌, Text, codes, text_eq, text_eq_iff, contains, Bool-cases,
}
use leartech_go_common.Base.Results.{Result, ok, err, ◌>>=◌, >>=-eq-ok, ok-injective}
use leartech_go_common.Base.Paths.{FilePath, join_path, show_path, show_rooted, rel}
use leartech_go_common.Base.Paths.Under.{
  IsElement, AreElements, prefix-below, show_rooted-injective, rel-below,
}
use leartech_go_common.Agent.Files.{
  FileError, Disk, under, has_git, inside_git_dir, or_text, real_root, resolved_path, check_inside,
  resolve_under,
}

abbrev pub IsName : Text → Type 0
IsName [] = ⊥
IsName (c ∷ s) = IsElement (c ∷ s)

abbrev pub AreNames : List Text → Type 0
AreNames [] = Unit
AreNames (p ∷ up) = IsName p × AreNames up

-- A path from the root with proper elements.
abbrev pub IsReal : FilePath → Type 0
IsReal p = (p.rooted ≡ true) × AreNames p.up

-- What is documented of `filepath.EvalSymlinks`: it calls `Clean` on its result, and the result for a
-- path from the root is from the root.
abbrev pub IsResolver : {W : Type 0} → Disk W → Type 0
IsResolver {W} disk =
    (p q : FilePath) (w : W) → p.rooted ≡ true → disk.eval_symlinks p w ≡ ok q → IsReal q

pub IsName-IsElement : (p : Text) → IsName p → IsElement p
IsName-IsElement [] h = tt
IsName-IsElement (c ∷ s) h = h

AreNames-AreElements : (up : List Text) → AreNames up → AreElements up
AreNames-AreElements [] h = tt
AreNames-AreElements (p ∷ up) (h, hs) = (IsName-IsElement p h, AreNames-AreElements up hs)

-- A list of elements whose text is that of a path from the root.
abbrev shown : List Text → List Text
shown [] = [] ∷ []
shown (p ∷ up) = p ∷ up

shown-AreElements : (up : List Text) → AreNames up → AreElements (shown up)
shown-AreElements [] h = (tt, tt)
shown-AreElements (p ∷ up) h = AreNames-AreElements (p ∷ up) h

show_path-shown :
    (up : List Text) → show_path (record { rooted = true; up = up }) ≡ show_rooted (shown up)
unfolding show_path show_rooted
show_path-shown [] = refl
show_path-shown (p ∷ up) = refl

-- Below a root with elements, by the text.
under-shown :
    (r : Text) (root path : List Text)
    → AreNames (r ∷ root)
    → AreNames path
    → under (record { rooted = true; up = r ∷ root }) (record { rooted = true; up = path }) ≡ true
    → (ps : List Text) × (shown path ≡ ps ++ r ∷ root)
unfolding under
under-shown r root path hr hp h =
    elim (Bool-cases (text_eq (show_rooted (shown path)) (show_rooted (r ∷ root)))) [
      | inl same ↦ (
        [],
        show_rooted-injective (r ∷ root) (shown path) (AreNames-AreElements (r ∷ root) hr)
            (shown-AreElements path hp)
            ((text_eq_iff (show_rooted (shown path)) (show_rooted (r ∷ root))).0 same),
      )
      | inr other ↦
          prefix-below (r ∷ root) (shown path) (AreNames-AreElements (r ∷ root) hr)
            (shown-AreElements path hp)
            (ground (arith, h, other, show_path-shown path, show_path-shown (r ∷ root)))
    ]

no_root_name : (r : Text) (root ps : List Text) → IsName r → [] ∷ [] ≡ ps ++ r ∷ root → ⊥
no_root_name [] root ps h e = h
no_root_name (c ∷ r) root [] h e = cc
no_root_name (c ∷ r) root (p ∷ []) h e = cc
no_root_name (c ∷ r) root (p ∷ q ∷ ps) h e = cc

-- A path whose text is below the root's is below it by its elements.
under-prefix :
    (root path : List Text)
    → AreNames root
    → AreNames path
    → under (record { rooted = true; up = root }) (record { rooted = true; up = path }) ≡ true
    → (ps : List Text) × (path ≡ ps ++ root)
under-prefix [] path hr hp h = (path, sym (append-nil path))
under-prefix (r ∷ root) (p ∷ path) hr hp h = under-shown r root (p ∷ path) hr hp h
under-prefix (r ∷ root) [] hr hp h =
    let (ps, e) = under-shown r root [] hr hp h in absurd (no_root_name r root ps hr.0 e)

-- A path is a root's path and then some elements, of which none is `.git`.
abbrev pub IsContained : FilePath → FilePath → Type 0
IsContained root path =
    (ps : List Text) × (path.up ≡ ps ++ root.up) × (contains (reverse ps) (codes ".git") ≡ false)

rooted_path : (p : FilePath) → p.rooted ≡ true → p ≡ record { rooted = true; up = p.up }
rooted_path p h = ap (λ b. record { rooted = b; up = p.up }) h

has_git-below :
    (root path : FilePath) (ps : List Text)
    → root.rooted ≡ true
    → path.rooted ≡ true
    → path.up ≡ ps ++ root.up
    → inside_git_dir root path ≡ contains (reverse ps) (codes ".git")
unfolding inside_git_dir has_git
has_git-below root path ps hr hp e = ap has_git (
    ap (λ q. rel q path) (rooted_path root hr)
    ∙ ap (rel (record { rooted = true; up = root.up }))
        (rooted_path path hp ∙ ap (λ up. record { rooted = true; up = up }) e)
    ∙ rel-below true root.up ps)

-- What the two tests of `resolveUnder` and of `resolveForWrite` make sure of.
pub under-IsContained :
    (root path : FilePath)
    → IsReal root
    → IsReal path
    → under root path ≡ true
    → inside_git_dir root path ≡ false
    → IsContained root path
under-IsContained root path (hr, nr) (hp, np) h git =
    let (ps, e) = under-prefix root.up path.up nr np (
      sym (
        ap (λ q. under q path) (rooted_path root hr)
        ∙ ap (under (record { rooted = true; up = root.up })) (rooted_path path hp))
      ∙ h) in
    (ps, e, sym (has_git-below root path ps hr hp e) ∙ git)

pub real_root-eq-ok : (r : Result FileError FilePath) (p : FilePath) → real_root r ≡ ok p → r ≡ ok p
unfolding real_root
real_root-eq-ok (ok q) p h = ap ok (ok-injective h)
real_root-eq-ok (err e) p h = cc

resolved_path-eq-ok :
    (name : Text) (r : Result FileError FilePath) (p : FilePath)
    → resolved_path name r ≡ ok p
    → r ≡ ok p
unfolding resolved_path
resolved_path-eq-ok name (ok q) p h = ap ok (ok-injective h)
resolved_path-eq-ok name (err e) p h = cc

pub or_text-eq-ok {ℓ} :
    {A : Type ℓ} → (r : Result FileError A) (a : A) → or_text r ≡ ok a → r ≡ ok a
unfolding or_text
or_text-eq-ok (ok b) a h = ap ok (ok-injective h)
or_text-eq-ok (err e) a h = cc

check_inside-eq-ok :
    (name : Text) (root path : FilePath) (q : FilePath × FilePath)
    → check_inside name root path ≡ ok q
    → ((root, path) ≡ q) × (under root path ≡ true) × (inside_git_dir root path ≡ false)
unfolding check_inside
check_inside-eq-ok name root path q h = elim (Bool-cases (under root path)) [
  | inr outside ↦ absurd (ground (arith, h, outside))
  | inl inside ↦ elim (Bool-cases (inside_git_dir root path)) [
    | inl git ↦ absurd (ground (arith, h, inside, git))
    | inr clean ↦ (ok-injective {E = Text} (ground (arith, h, inside, clean)), inside, clean)
  ]
]

module _ {W : Type 0} (disk : Disk W) where
  -- `path` is where a name leads from a root, its links followed, and lies under the root's own place.
  abbrev pub Reaches : FilePath → Text → W → FilePath → Type 0
  Reaches root name w path =
      (real : FilePath) × (disk.eval_symlinks root w ≡ ok real)
      × (disk.eval_symlinks (join_path real name) w ≡ ok path)
      × IsContained real path

  abbrev Resolves : FilePath → Text → W → FilePath × FilePath → Type 0
  Resolves root name w (real, path) =
      (disk.eval_symlinks root w ≡ ok real)
      × (disk.eval_symlinks (join_path real name) w ≡ ok path)
      × (under real path ≡ true)
      × (inside_git_dir real path ≡ false)

  resolve_under-Resolves :
      (root : FilePath) (name : Text) (w : W) (q : FilePath × FilePath)
      → resolve_under disk root name w ≡ ok q
      → Resolves root name w q
  unfolding resolve_under
  resolve_under-Resolves root name w q h =
      let (real, a, h1) =
        >>=-eq-ok (real_root (disk.eval_symlinks root w))
          (λ real.
            resolved_path name (disk.eval_symlinks (join_path real name) w)
            >>= check_inside name real)
          h in
      let (path, b, h2) =
        >>=-eq-ok (resolved_path name (disk.eval_symlinks (join_path real name) w))
          (check_inside name real) h1 in
      let (same, inside, git) = check_inside-eq-ok name real path q h2 in
      subst (Resolves root name w) same (
        real_root-eq-ok (disk.eval_symlinks root w) real a,
        resolved_path-eq-ok name (disk.eval_symlinks (join_path real name) w) path b,
        inside,
        git,
      )

  -- What a tool opens is the file that the name leads to, under the root and not in `.git`.
  pub resolve_under-Reaches :
      (root : FilePath) (name : Text) (w : W) (q : FilePath × FilePath)
      → IsResolver disk
      → root.rooted ≡ true
      → resolve_under disk root name w ≡ ok q
      → Reaches root name w q.1
  unfolding join_path
  resolve_under-Reaches root name w q clean hr h =
      let (a, b, inside, git) = resolve_under-Resolves root name w q h in
      let real = clean root q.0 w hr a in
      let path = clean (join_path q.0 name) q.1 w real.0 b in
      (q.0, a, b, under-IsContained q.0 q.1 real path inside git)
