-- ===== src/Base/Paths.antt =====
-- path/filepath on Unix. A path is what `Clean` makes of a text: whether it starts at the root, and its
-- elements, the last one first.
pub mod Under
use Prim.Native.Nat.{ℕ, zero, suc}
use mathlib.Core.Bool.{Bool, true, false, not, ◌&&◌, ◌||◌}
use mathlib.Core.Option.{Option, none, some}
use mathlib.Core.List.{List, [], ◌∷◌, ◌++◌, reverse}
use leartech_go_common.Base.Tests.{◌==◌, if◌then◌else◌}
use leartech_go_common.Base.Strings.{Text, codes, text_eq, has_prefix, contains}

abbrev pub slash : ℕ
slash = 0x2F

pub record FilePath : Type 0 where
  pub rooted : Bool
  pub up : List Text

-- The elements of a text, the last one first: those before the part that is being read, and that part.
unfoldable pub read_path : List Text → Text → Text → List Text × Text
read_path up part [] = (up, part)
read_path up part (c ∷ s) =
    let next = read_path (part ∷ up) [] s in
    let on = read_path up (part ++ c ∷ []) s in if c == slash then next else on

-- `strings.Split(s, "/")`, the last element first.
unfoldable pub split_path : Text → List Text
unfolding read_path
split_path s = let (up, part) = read_path [] [] s in part ∷ up

-- `..` after some elements.
unfoldable pub parent : Bool → List Text → List Text
unfolding text_eq codes
parent true [] = []
parent false [] = codes ".." ∷ []
parent rooted (p ∷ up) = if text_eq p (codes "..") then codes ".." ∷ p ∷ up else up

unfoldable pub push_part : Bool → Text → List Text → List Text
unfolding parent text_eq codes
push_part rooted [] up = up
push_part rooted (c ∷ p) up =
    if text_eq (c ∷ p) (codes ".")
    then up
    else if text_eq (c ∷ p) (codes "..")
    then parent rooted up
    else (c ∷ p) ∷ up

-- What `Clean` makes of some elements, the last one first, below a clean path.
unfoldable pub clean_below : Bool → List Text → List Text → List Text
unfolding push_part
clean_below rooted up [] = up
clean_below rooted up (p ∷ ps) = push_part rooted p (clean_below rooted up ps)

unfoldable pub is_rooted : Text → Bool
is_rooted [] = false
is_rooted (c ∷ s) = c == slash

-- `Clean`
unfoldable pub clean : Text → FilePath
unfolding clean_below split_path is_rooted
clean s = record { rooted = is_rooted s; up = clean_below (is_rooted s) [] (split_path s) }

-- `Join` of a clean path and a text.
unfoldable pub join_path : FilePath → Text → FilePath
unfolding clean_below split_path
join_path p s = record p { up = clean_below p.rooted p.up (split_path s) }

-- `Join` of a clean path and elements, the first one first.
unfoldable pub join_parts : FilePath → List Text → FilePath
unfolding clean_below
join_parts p parts = record p { up = clean_below p.rooted p.up (reverse parts) }

-- `Dir`
unfoldable pub dir : FilePath → FilePath
dir p = record p { up = elim p.up [ [] ↦ [] | q ∷ up ↦ up ] }

unfoldable pub show_rooted : List Text → Text
show_rooted [] = []
show_rooted (p ∷ up) = show_rooted up ++ slash ∷ p

unfoldable pub show_relative : List Text → Text
show_relative [] = []
show_relative (p ∷ []) = p
show_relative (p ∷ q ∷ up) = show_relative (q ∷ up) ++ slash ∷ p

-- The text of a path.
unfoldable pub show_path : FilePath → Text
unfolding show_rooted show_relative codes
show_path p = elim p.up [
  | [] ↦ if p.rooted then slash ∷ [] else codes "."
  | q ∷ up ↦ if p.rooted then show_rooted (q ∷ up) else show_relative (q ∷ up)
]

-- A `..` for every element of a list, before a list.
unfoldable pub climb : List Text → List Text → List Text
unfolding codes
climb [] ts = ts
climb (b ∷ bs) ts = codes ".." ∷ climb bs ts

unfoldable pub bool_eq : Bool → Bool → Bool
bool_eq true b = b
bool_eq false b = not b

-- The elements that lead from a base to a target, the first ones first, where the base is not left by
-- `..`.
unfoldable pub rel_parts : List Text → List Text → Option (List Text)
unfolding text_eq codes climb
rel_parts [] ts = some ts
rel_parts (b ∷ bs) [] = if text_eq b (codes "..") then none else some (climb (b ∷ bs) [])
rel_parts (b ∷ bs) (t ∷ ts) =
    let on = rel_parts bs ts in
    if text_eq b t
    then on
    else if text_eq b (codes "..")
    then none
    else some (climb (b ∷ bs) (t ∷ ts))

-- `Rel`, as the list of its elements: none of them stands for `.`, and `none` for an error.
unfoldable pub rel : FilePath → FilePath → Option (List Text)
unfolding rel_parts bool_eq
rel base target = elim (bool_eq base.rooted target.rooted) [
  | false ↦ none
  | true ↦ rel_parts (reverse base.up) (reverse target.up)
]
