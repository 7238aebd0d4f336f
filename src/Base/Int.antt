-- ===== src/Base/Int.antt =====
-- Signed integers over the native numbers, under the library's names (its ℤ stands on the unary ℕ).
use Prim.Native.Nat.{ℕ, suc, ◌+◌, ◌-◌, ◌%◌, ◌^◌, ◌≤◌}
use mathlib.Core.Path.{◌≡◌}
use mathlib.Core.Bool.{Bool}
use native.Mathlib.Omega.{arith}
use mathlib.Core.List.{◌∷◌}
use leartech_go_common.Base.Strings.{Text, decimal}
use leartech_go_common.Base.Tests.{ltb, leb, ◌==◌, if◌then◌else◌}

-- `negsuc n` is -(n + 1).
pub data ℤ : Type 0 where
  pos : ℕ → ℤ
  negsuc : ℕ → ℤ

abbrev pub pos_part : ℤ → ℕ
pos_part (pos n) = n
pos_part (negsuc n) = 0

abbrev pub neg_part : ℤ → ℕ
neg_part (pos n) = 0
neg_part (negsuc n) = suc n

-- a - b, as an integer.
abbrev pub sub_ℕ : ℕ → ℕ → ℤ
sub_ℕ a b = if leb b a then pos (a - b) else negsuc (b - a - 1)

infixl 65 ◌+ℤ◌ ◌-ℤ◌
infix 50 ◌≤ℤ◌
unfoldable pub ◌+ℤ◌ : ℤ → ℤ → ℤ
a +ℤ b = sub_ℕ (pos_part a + pos_part b) (neg_part a + neg_part b)

unfoldable pub ◌-ℤ◌ : ℤ → ℤ → ℤ
a -ℤ b = sub_ℕ (pos_part a + neg_part b) (neg_part a + pos_part b)

abbrev pub ◌≤ℤ◌ : ℤ → ℤ → Type 0
a ≤ℤ b = pos_part a + neg_part b ≤ pos_part b + neg_part a

abbrev pub ltb_ℤ : ℤ → ℤ → Bool
ltb_ℤ a b = ltb (pos_part a + neg_part b) (pos_part b + neg_part a)

abbrev pub leb_ℤ : ℤ → ℤ → Bool
leb_ℤ a b = leb (pos_part a + neg_part b) (pos_part b + neg_part a)

abbrev pub eq_ℤ : ℤ → ℤ → Bool
eq_ℤ a b = pos_part a + neg_part b == pos_part b + neg_part a

-- One lemma for each operation lets `omega` work with the operations shut.
pub +ℤ_parts :
    (a b : ℤ)
    → pos_part (a +ℤ b) + neg_part a + neg_part b ≡ neg_part (a +ℤ b) + pos_part a + pos_part b
unfolding ◌+ℤ◌
+ℤ_parts a b = ground arith

pub -ℤ_parts :
    (a b : ℤ)
    → pos_part (a -ℤ b) + neg_part a + pos_part b ≡ neg_part (a -ℤ b) + pos_part a + neg_part b
unfolding ◌-ℤ◌
-ℤ_parts a b = ground arith

pub eq_of_parts : (a b : ℤ) → pos_part a + neg_part b ≡ pos_part b + neg_part a → a ≡ b
eq_of_parts a b h = ground arith

pub ruleset int_laws = (arith, +ℤ_parts, -ℤ_parts, eq_of_parts)

-- A 64-bit `int`: the representative of `z` modulo 2^64 in [-2^63, 2^63).
unfoldable pub wrap_int : ℤ → ℤ
wrap_int z =
    let m = (pos_part z + (2 ^ 64 - neg_part z % 2 ^ 64)) % 2 ^ 64 in
    if ltb m (2 ^ 63) then pos m else negsuc (2 ^ 64 - 1 - m)

-- `a + b` in `int`.
unfoldable pub add_int : ℤ → ℤ → ℤ
add_int a b = wrap_int (a +ℤ b)

-- `a - b` in `int`.
unfoldable pub sub_int : ℤ → ℤ → ℤ
unfolding wrap_int ◌-ℤ◌
sub_int a b = wrap_int (a -ℤ b)

abbrev pub IsInt : ℤ → Type 0
IsInt z = (pos_part z ≤ 2 ^ 63 - 1) × (neg_part z ≤ 2 ^ 63)

pub wrap_int_id : (z : ℤ) → IsInt z → wrap_int z ≡ z
unfolding wrap_int
wrap_int_id (pos n) (hp, hn) = ground arith
wrap_int_id (negsuc n) (hp, hn) = ground arith

-- `%d` of an `int`.
unfoldable pub show_int : ℤ → Text
show_int (pos n) = decimal n
show_int (negsuc n) = b'-' ∷ decimal (suc n)
