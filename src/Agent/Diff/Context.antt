-- ===== src/Agent/Diff/Context.antt =====
-- Trimming the context of a diff loses no changed line.
use leartech_go_common.Base.{
  ℕ, zero, suc, ◌+◌, ◌≡◌, refl, sym, ◌∙◌, ap, not, take, codes, text_eq, Bool, true, false, ◌||◌,
  inl, inr, List, [], ◌∷◌, Text, arith, has_prefix, select, Bool-cases, get_or, length, ◌≤◌, ◌<◌,
}
use leartech_go_common.Agent.Diff.{
  is_change, mark, mark_changes, none_kept, gap_line, keep_lines, trim_context,
}

-- Every changed line has its flag set.
abbrev Covers : List Text → List Bool → Type 0
Covers [] keep = Unit
Covers (l ∷ ls) [] = ⊥
Covers (l ∷ ls) (flag ∷ keep) = (is_change l ≡ true → flag ≡ true) × Covers ls keep

gap_line_kept : is_change gap_line ≡ false
unfolding is_change has_prefix
gap_line_kept = refl

select-keep_lines :
    (ls : List Text) (keep : List Bool) (skipping : Bool)
    → Covers ls keep
    → select is_change (keep_lines ls keep skipping) ≡ select is_change ls
unfolding keep_lines
select-keep_lines [] keep skipping h = refl
select-keep_lines (l ∷ ls) [] skipping h = elim h [ ]
select-keep_lines (l ∷ ls) (true ∷ keep) true (here, rest) =
    rw (gap_line_kept, select-keep_lines ls keep false rest) refl
select-keep_lines (l ∷ ls) (true ∷ keep) false (here, rest) =
    rw (select-keep_lines ls keep false rest) refl
select-keep_lines (l ∷ ls) (false ∷ keep) skipping (here, rest) = elim (Bool-cases (is_change l)) [
  | inl change ↦ ground (arith, here change)
  | inr same ↦ rw same (select-keep_lines ls keep true rest)
]

length-mark : (i k : ℕ) (flags : List Bool) → length (mark i k flags) ≡ length flags
unfolding mark
length-mark i k [] = refl
length-mark i k (flag ∷ flags) = ap suc (length-mark i (suc k) flags)

mark-kept :
    (i k p : ℕ) (flags : List Bool)
    → get_or flags p false ≡ true
    → get_or (mark i k flags) p false ≡ true
unfolding mark
mark-kept i k p [] h = h
mark-kept i k zero (flag ∷ flags) h = rw h refl
mark-kept i k (suc p) (flag ∷ flags) h = mark-kept i (suc k) p flags h

or_true : (b : Bool) → b || true ≡ true
or_true true = refl
or_true false = refl

mark-set :
    (i k p : ℕ) (flags : List Bool)
    → p < length flags
    → i ≡ k + p
    → get_or (mark i k flags) p false ≡ true
unfolding mark
mark-set i k p [] h e = ground arith
mark-set i k zero (flag ∷ flags) h e = ground arith
mark-set i k (suc p) (flag ∷ flags) h e = mark-set i (suc k) p flags (omega arith) (omega arith)

mark_changes-kept :
    (i p : ℕ) (ls : List Text) (keep : List Bool)
    → get_or keep p false ≡ true
    → get_or (mark_changes i ls keep) p false ≡ true
unfolding mark_changes
mark_changes-kept i p [] keep h = h
mark_changes-kept i p (l ∷ ls) keep h = elim (Bool-cases (is_change l)) [
  | inl change ↦ rw change (mark_changes-kept (suc i) p ls _ (mark-kept i 0 p keep h))
  | inr same ↦ rw same (mark_changes-kept (suc i) p ls keep h)
]

length-mark_changes :
    (i : ℕ) (ls : List Text) (keep : List Bool) → length (mark_changes i ls keep) ≡ length keep
unfolding mark_changes
length-mark_changes i [] keep = refl
length-mark_changes i (l ∷ ls) keep = elim (Bool-cases (is_change l)) [
  | inl change ↦ rw (change, length-mark_changes (suc i) ls (mark i 0 keep)) (length-mark i 0 keep)
  | inr same ↦ rw same (length-mark_changes (suc i) ls keep)
]

mark_changes-set :
    (i p q : ℕ) (ls : List Text) (keep : List Bool)
    → p ≡ i + q
    → i + length ls ≤ length keep
    → q < length ls
    → is_change (get_or ls q []) ≡ true
    → get_or (mark_changes i ls keep) p false ≡ true
unfolding mark_changes
mark_changes-set i p q [] keep e fits inside change = ground arith
mark_changes-set i p zero (l ∷ ls) keep e fits inside change =
    rw change (mark_changes-kept (suc i) p ls _ (mark-set i 0 p keep (omega arith) (omega arith)))
mark_changes-set i p (suc q) (l ∷ ls) keep e fits inside change = elim (Bool-cases (is_change l)) [
  | inl here ↦ rw here (
      mark_changes-set (suc i) p q ls (mark i 0 keep) (omega arith)
        (omega (arith, length-mark i 0 keep)) (omega arith) change)
  | inr same ↦
      rw same
        (mark_changes-set (suc i) p q ls keep (omega arith) (omega arith) (omega arith) change)
]

Covers-flags :
    (ls : List Text) (keep : List Bool)
    → length ls ≤ length keep
    → ((q : ℕ) → q < length ls → is_change (get_or ls q []) ≡ true → get_or keep q false ≡ true)
    → Covers ls keep
Covers-flags [] keep fits h = tt
Covers-flags (l ∷ ls) [] fits h = ground arith
Covers-flags (l ∷ ls) (flag ∷ keep) fits h =
    (h 0 (omega arith), Covers-flags ls keep (omega arith) (λ q inside. h (suc q) (omega arith)))

length-none_kept : (ls : List Text) → length (none_kept ls) ≡ length ls
unfolding none_kept
length-none_kept [] = refl
length-none_kept (l ∷ ls) = ap suc (length-none_kept ls)

trim_context-is_change : (ls : List Text) → select is_change (trim_context ls) ≡ select is_change ls
unfolding trim_context
trim_context-is_change ls = select-keep_lines ls (mark_changes 0 ls (none_kept ls)) false (
    Covers-flags ls (mark_changes 0 ls (none_kept ls))
      (omega (arith, length-mark_changes 0 ls (none_kept ls), length-none_kept ls))
      (λ q inside change.
        mark_changes-set 0 q q ls (none_kept ls) (omega arith) (omega (arith, length-none_kept ls))
          inside change))

-- A line that does not begin with two spaces: one that was removed or added.
abbrev pub changed : Text → Bool
changed l = not (text_eq (take 2 l) (codes "  "))

is_change-changed : (l : Text) → is_change l ≡ changed l
unfolding is_change has_prefix text_eq codes
is_change-changed [] = refl
is_change-changed (a ∷ []) = ground arith
is_change-changed (a ∷ b ∷ l) = ground arith

select-changed : (ls : List Text) → select is_change ls ≡ select changed ls
select-changed [] = refl
select-changed (l ∷ ls) = rw (is_change-changed l, select-changed ls) refl

-- Trimming the context keeps every changed line, that is every line that does not begin with two
-- spaces, in the order they stand in, and adds none.
pub trim_context_changes : (ls : List Text) → select changed (trim_context ls) ≡ select changed ls
trim_context_changes ls =
    sym (select-changed (trim_context ls)) ∙ trim_context-is_change ls ∙ select-changed ls
