-- ===== src/Base/Trim.antt =====
-- White space as `unicode.IsSpace` has it, over the bytes of UTF-8.
use Prim.Native.Nat.{ℕ, zero, suc, ◌-◌}
use mathlib.Core.Bool.{Bool, true, false, ◌&&◌, ◌||◌}
use mathlib.Core.List.{[], ◌∷◌}
use leartech_go_common.Base.Tests.{leb, ◌==◌, if◌then◌else◌}
use leartech_go_common.Base.Strings.{Text, has_prefix}

-- U+2000 to U+200A, U+2028, U+2029 and U+202F, by the last byte of three.
unfoldable pub general_space : Text → Bool
general_space (c ∷ d ∷ s) = (leb 0x80 d && leb d 0x8A) || (d == 0xA8 || (d == 0xA9 || d == 0xAF))
general_space s = false

-- The length in bytes of the white space that a text starts with, 0 if none.
unfoldable pub space_width : Text → ℕ
unfolding has_prefix general_space
space_width [] = 0
space_width (c ∷ s) =
    let t = c ∷ s in
    if c == 0x20 || (leb 0x09 c && leb c 0x0D)
    then 1
    else if has_prefix t (0xC2 ∷ 0x85 ∷ []) || has_prefix t (0xC2 ∷ 0xA0 ∷ [])
    then 2
    else if has_prefix t (0xE1 ∷ 0x9A ∷ 0x80 ∷ [])
        || (has_prefix t (0xE2 ∷ 0x81 ∷ 0x9F ∷ []) || has_prefix t (0xE3 ∷ 0x80 ∷ 0x80 ∷ []))
    then 3
    else if has_prefix t (0xE2 ∷ 0x80 ∷ []) && general_space s
    then 3
    else 0

-- Whether a text is white space only, with the bytes of white space left to pass over.
unfoldable pub all_space : ℕ → Text → Bool
unfolding space_width
all_space skip [] = true
all_space (suc skip) (c ∷ s) = all_space skip s
all_space zero (c ∷ s) =
    let rest = all_space (space_width (c ∷ s) - 1) s in
    if space_width (c ∷ s) == 0 then false else rest

unfoldable pub trim_left_space : ℕ → Text → Text
unfolding space_width
trim_left_space skip [] = []
trim_left_space (suc skip) (c ∷ s) = trim_left_space skip s
trim_left_space zero (c ∷ s) =
    let rest = trim_left_space (space_width (c ∷ s) - 1) s in
    if space_width (c ∷ s) == 0 then c ∷ s else rest

unfoldable pub trim_right_space : Text → Text
unfolding all_space
trim_right_space [] = []
trim_right_space (c ∷ s) =
    let rest = trim_right_space s in if all_space 0 (c ∷ s) then [] else c ∷ rest

-- `strings.TrimSpace`
unfoldable pub trim_space : Text → Text
unfolding trim_left_space trim_right_space
trim_space s = trim_right_space (trim_left_space 0 s)
