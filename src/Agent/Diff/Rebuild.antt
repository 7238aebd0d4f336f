-- ===== src/Agent/Diff/Rebuild.antt =====
-- The lines of a diff spell out both files: nothing that changed is left out or made up.
use leartech_go_common.Base.{
  ℕ, suc, ◌≡◌, refl, sym, ap, inl, inr, List, [], ◌∷◌, ◌++◌, map, append-nil, Text, text_eq,
  text_eq_iff, text_eq_refl, arith, has_prefix, leb, Bool-cases, if◌then◌else◌, drop,
}
use leartech_go_common.Agent.Diff.{
  walk, lcs, lcs_table, entry, removed_line, added_line, same_line, lines_before, lines_after, emit,
  diff_lines, split_lines,
}

-- One list of lines is left when some lines of another are taken out.
pub data Subseq : List Text → List Text → Type 0 where
  done : Subseq [] []
  keep : {c : Text} {cs xs : List Text} → Subseq cs xs → Subseq (c ∷ cs) (c ∷ xs)
  skip : {x : Text} {cs xs : List Text} → Subseq cs xs → Subseq cs (x ∷ xs)

Subseq-nil : (xs : List Text) → Subseq [] xs
Subseq-nil [] = done
Subseq-nil (x ∷ xs) = skip (Subseq-nil xs)

walk-Subseq_old : (t : List (List ℕ)) (a b : List Text) (i j : ℕ) → Subseq (walk t a b i j) a
unfolding walk
walk-Subseq_old t [] b i j = done
walk-Subseq_old t (x ∷ a) [] i j = Subseq-nil (x ∷ a)
walk-Subseq_old t (x ∷ a) (y ∷ b) i j = elim (Bool-cases (text_eq x y)) [
  | inl same ↦ rw same (keep (walk-Subseq_old t a b (suc i) (suc j)))
  | inr other ↦ elim (Bool-cases (leb (entry t i (suc j)) (entry t (suc i) j))) [
    | inl down ↦ rw (other, down) (skip (walk-Subseq_old t a (y ∷ b) (suc i) j))
    | inr right ↦ rw (other, right) (walk-Subseq_old t (x ∷ a) b i (suc j))
  ]
]

keep_same : {x y : Text} {cs xs : List Text} → x ≡ y → Subseq cs xs → Subseq (x ∷ cs) (y ∷ xs)
keep_same {x} {y} {cs} {xs} e h = rw e (keep h)

walk-Subseq_new : (t : List (List ℕ)) (a b : List Text) (i j : ℕ) → Subseq (walk t a b i j) b
unfolding walk
walk-Subseq_new t [] b i j = Subseq-nil b
walk-Subseq_new t (x ∷ a) [] i j = done
walk-Subseq_new t (x ∷ a) (y ∷ b) i j = elim (Bool-cases (text_eq x y)) [
  | inl same ↦
      rw same (keep_same (ground (arith, text_eq_iff x y)) (walk-Subseq_new t a b (suc i) (suc j)))
  | inr other ↦ elim (Bool-cases (leb (entry t i (suc j)) (entry t (suc i) j))) [
    | inl down ↦ rw (other, down) (walk-Subseq_new t a (y ∷ b) (suc i) j)
    | inr right ↦ rw (other, right) (skip (walk-Subseq_new t (x ∷ a) b i (suc j)))
  ]
]

-- What `lcs` returns is a subsequence of both lists.
pub lcs-Subseq : (a b : List Text) → Subseq (lcs a b) a × Subseq (lcs a b) b
unfolding lcs
lcs-Subseq [] b = (done, Subseq-nil b)
lcs-Subseq (x ∷ a) [] = (Subseq-nil (x ∷ a), done)
lcs-Subseq (x ∷ a) (y ∷ b) = (
  walk-Subseq_old (lcs_table (x ∷ a) (y ∷ b)) (x ∷ a) (y ∷ b) 0 0,
  walk-Subseq_new (lcs_table (x ∷ a) (y ∷ b)) (x ∷ a) (y ∷ b) 0 0,
)

-- The lines of the old file that a diff spells out: all but those marked `+ `, without the mark.
unfoldable pub old_side : List Text → List Text
old_side [] = []
old_side (l ∷ ls) =
    let rest = old_side ls in if has_prefix l (added_line []) then rest else drop 2 l ∷ rest

-- The lines of the new file: all but those marked `- `, without the mark.
unfoldable pub new_side : List Text → List Text
new_side [] = []
new_side (l ∷ ls) =
    let rest = new_side ls in if has_prefix l (removed_line []) then rest else drop 2 l ∷ rest

old_side-removed : (a ls : List Text) → old_side (map removed_line a ++ ls) ≡ a ++ old_side ls
unfolding old_side has_prefix
old_side-removed [] ls = refl
old_side-removed (x ∷ a) ls = ap (λ r. x ∷ r) (old_side-removed a ls)

old_side-added : (b ls : List Text) → old_side (map added_line b ++ ls) ≡ old_side ls
unfolding old_side has_prefix
old_side-added [] ls = refl
old_side-added (x ∷ b) ls = old_side-added b ls

new_side-added : (b ls : List Text) → new_side (map added_line b ++ ls) ≡ b ++ new_side ls
unfolding new_side has_prefix
new_side-added [] ls = refl
new_side-added (x ∷ b) ls = ap (λ r. x ∷ r) (new_side-added b ls)

new_side-removed : (a ls : List Text) → new_side (map removed_line a ++ ls) ≡ new_side ls
unfolding new_side has_prefix
new_side-removed [] ls = refl
new_side-removed (x ∷ a) ls = new_side-removed a ls

Subseq-tail : {c : Text} {cs xs : List Text} → Subseq (c ∷ cs) xs → Subseq cs xs
Subseq-tail (keep h) = skip h
Subseq-tail (skip h) = skip (Subseq-tail h)

-- A line that comes in a list splits it, and what follows it is what is left to match.
lines-split :
    (c : Text) (cs a : List Text)
    → Subseq (c ∷ cs) a
    → (lines_before c a ++ (c ∷ lines_after c a) ≡ a) × Subseq cs (lines_after c a)
unfolding lines_before lines_after
lines-split c cs [] h = elim h [ ]
lines-split c cs (x ∷ a) (keep h) = rw (text_eq_refl c) (refl, h)
lines-split c cs (x ∷ a) (skip h) = elim (Bool-cases (text_eq x c)) [
  | inl same ↦ rw same (ap (λ z. z ∷ a) (sym (ground (arith, text_eq_iff x c))), Subseq-tail h)
  | inr other ↦ let (whole, rest) = lines-split c cs a h in rw other (ap (λ r. x ∷ r) whole, rest)
]

old_side-same : (l : Text) (ls : List Text) → old_side (same_line l ∷ ls) ≡ l ∷ old_side ls
unfolding old_side has_prefix
old_side-same l ls = refl

new_side-same : (l : Text) (ls : List Text) → new_side (same_line l ∷ ls) ≡ l ∷ new_side ls
unfolding new_side has_prefix
new_side-same l ls = refl

old_side-added_all : (b : List Text) → old_side (map added_line b) ≡ []
unfolding old_side has_prefix
old_side-added_all [] = refl
old_side-added_all (x ∷ b) = old_side-added_all b

new_side-added_all : (b : List Text) → new_side (map added_line b) ≡ b
unfolding new_side has_prefix
new_side-added_all [] = refl
new_side-added_all (x ∷ b) = ap (λ r. x ∷ r) (new_side-added_all b)

old_side-emit : (a b cs : List Text) → Subseq cs a → old_side (emit a b cs) ≡ a
unfolding emit
old_side-emit a b [] h =
    rw (old_side-removed a (map added_line b), old_side-added_all b) (append-nil a)
old_side-emit a b (c ∷ cs) h =
    let (whole, rest) = lines-split c cs a h in
    rw
      (
        old_side-removed (lines_before c a) _,
        old_side-added (lines_before c b) _,
        old_side-same c (emit (lines_after c a) (lines_after c b) cs),
        old_side-emit (lines_after c a) (lines_after c b) cs rest,
      )
      whole

new_side-emit : (a b cs : List Text) → Subseq cs b → new_side (emit a b cs) ≡ b
unfolding emit
new_side-emit a b [] h = rw (new_side-removed a (map added_line b)) (new_side-added_all b)
new_side-emit a b (c ∷ cs) h =
    let (whole, rest) = lines-split c cs b h in
    rw
      (
        new_side-removed (lines_before c a) _,
        new_side-added (lines_before c b) _,
        new_side-same c (emit (lines_after c a) (lines_after c b) cs),
        new_side-emit (lines_after c a) (lines_after c b) cs rest,
      )
      whole

-- The lines of the diff spell out both files: without the added lines it is the old file, without the
-- removed lines the new one, line for line, so every changed line appears and none is made up.
pub diff_lines-sides :
    (old new : Text)
    → (old_side (diff_lines old new) ≡ split_lines old)
      × (new_side (diff_lines old new) ≡ split_lines new)
unfolding diff_lines
diff_lines-sides old new =
    let (sub_old, sub_new) = lcs-Subseq (split_lines old) (split_lines new) in
    (
      old_side-emit (split_lines old) (split_lines new) (lcs (split_lines old) (split_lines new))
          sub_old,
      new_side-emit (split_lines old) (split_lines new) (lcs (split_lines old) (split_lines new))
          sub_new,
    )
