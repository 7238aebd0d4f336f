-- ===== src/Base/Paths/Under.antt =====
-- A path whose text lies below another path's text has that path's elements, and then some.
use Prim.Native.Nat.{ℕ}
use mathlib.Core.Path.{◌≡◌, refl, sym, ap, ◌∙◌}
use mathlib.Core.Logic.{inl, inr}
use mathlib.Core.Bool.{Bool, true, false}
use mathlib.Core.Option.{some}
use mathlib.Core.List.{
  List, [], ◌∷◌, ◌++◌, reverse, reverse-append, append_cancel_right, append_assoc, append-nil,
}
use native.Mathlib.Omega.{arith}
use leartech_go_common.Base.Tests.{◌==◌, Bool-cases}
use leartech_go_common.Base.Strings.{Text, text_eq_refl, has_prefix}
use leartech_go_common.Base.Paths.{slash, read_path, show_rooted, rel_parts, rel, bool_eq}

-- An element of a path has no slash.
abbrev pub IsElement : Text → Type 0
IsElement [] = Unit
IsElement (c ∷ s) = ((c == slash) ≡ false) × IsElement s

abbrev pub AreElements : List Text → Type 0
AreElements [] = Unit
AreElements (p ∷ up) = IsElement p × AreElements up

abbrev all_parts : List Text × Text → List Text
all_parts r = r.1 ∷ r.0

read_path-append :
    (up : List Text) (part s t : Text)
    → read_path up part (s ++ t) ≡ read_path (read_path up part s).0 (read_path up part s).1 t
unfolding read_path
read_path-append up part [] t = refl
read_path-append up part (c ∷ s) t = elim (Bool-cases (c == slash)) [
  | inl cut ↦ rw cut (read_path-append (part ∷ up) [] s t)
  | inr on ↦ rw on (read_path-append up (part ++ c ∷ []) s t)
]

read_path-IsElement :
    (up : List Text) (part p : Text) → IsElement p → read_path up part p ≡ (up, part ++ p)
unfolding read_path
read_path-IsElement up part [] h = ap (λ q. (up, q)) (sym (append-nil part))
read_path-IsElement up part (c ∷ p) (on, h) =
    rw on (
      read_path-IsElement up (part ++ c ∷ []) p h
      ∙ ap (λ q. (up, q)) (append_assoc part (c ∷ []) p))

read_path-slash :
    (up : List Text) (part s : Text) → read_path up part (slash ∷ s) ≡ read_path (part ∷ up) [] s
unfolding read_path
read_path-slash up part s = refl

-- The elements that are read before a text stay.
read_path-keeps :
    (up : List Text) (part s : Text)
    → (ps : List Text) × (all_parts (read_path up part s) ≡ ps ++ up)
unfolding read_path
read_path-keeps up part [] = (part ∷ [], refl)
read_path-keeps up part (c ∷ s) = elim (Bool-cases (c == slash)) [
  | inl cut ↦
      let (ps, e) = read_path-keeps (part ∷ up) [] s in
      (ps ++ part ∷ [], rw cut (e ∙ sym (append_assoc ps (part ∷ []) up)))
  | inr on ↦ let (ps, e) = read_path-keeps up (part ++ c ∷ []) s in (ps, rw on e)
]

-- The text of a path from the root gives its elements back, after the empty text before its first
-- slash.
read_path-show :
    (up : List Text) → AreElements up → all_parts (read_path [] [] (show_rooted up)) ≡ up ++ [] ∷ []
unfolding show_rooted read_path
read_path-show [] h = refl
read_path-show (p ∷ up) (h, hs) =
    ap all_parts (
      read_path-append [] [] (show_rooted up) (slash ∷ p)
      ∙ read_path-IsElement (all_parts (read_path [] [] (show_rooted up))) [] p h)
    ∙ ap (λ q. p ∷ q) (read_path-show up hs)

same_head : (d c : ℕ) (s t : Text) → has_prefix (d ∷ s) (c ∷ t) ≡ true → d ≡ c
unfolding has_prefix
same_head d c s t h = ground (arith, h)

has_prefix-split : (s t : Text) → has_prefix s t ≡ true → (r : Text) × (s ≡ t ++ r)
unfolding has_prefix
has_prefix-split s [] h = (s, refl)
has_prefix-split [] (c ∷ t) h = cc
has_prefix-split (d ∷ s) (c ∷ t) h =
    let (r, e) = has_prefix-split s t (ground (arith, h)) in
    (r, ap (λ q. d ∷ q) e ∙ ap (λ x. x ∷ t ++ r) (same_head d c s t h))

-- Two paths from the root: the text of one goes on with a slash after the text of the other.
pub prefix-below :
    (base target : List Text)
    → AreElements base
    → AreElements target
    → has_prefix (show_rooted target) (show_rooted base ++ slash ∷ []) ≡ true
    → (ps : List Text) × (target ≡ ps ++ base)
prefix-below base target hb ht h =
    let (r, e) = has_prefix-split (show_rooted target) (show_rooted base ++ slash ∷ []) h in
    let (ps, k) = read_path-keeps (all_parts (read_path [] [] (show_rooted base))) [] r in
    (
      ps,
      append_cancel_right target (ps ++ base) ([] ∷ []) (
          sym (read_path-show target ht)
          ∙ ap (λ s. all_parts (read_path [] [] s))
              (e ∙ append_assoc (show_rooted base) (slash ∷ []) r)
          ∙ ap all_parts (read_path-append [] [] (show_rooted base) (slash ∷ r))
          ∙ ap all_parts (
              read_path-slash (read_path [] [] (show_rooted base)).0
                (read_path [] [] (show_rooted base)).1 r)
          ∙ k
          ∙ ap (λ q. ps ++ q) (read_path-show base hb)
          ∙ sym (append_assoc ps base ([] ∷ []))),
    )

-- Equal texts are of equal paths.
pub show_rooted-injective :
    (base target : List Text)
    → AreElements base
    → AreElements target
    → show_rooted target ≡ show_rooted base
    → target ≡ base
show_rooted-injective base target hb ht e = append_cancel_right target base ([] ∷ []) (
    sym (read_path-show target ht)
    ∙ ap (λ s. all_parts (read_path [] [] s)) e
    ∙ read_path-show base hb)

rel_parts-append : (bs ts : List Text) → rel_parts bs (bs ++ ts) ≡ some ts
unfolding rel_parts
rel_parts-append [] ts = refl
rel_parts-append (b ∷ bs) ts = rw (text_eq_refl b) (rel_parts-append bs ts)

-- The way from a path to one below it.
pub rel-below :
    (rooted : Bool) (base ps : List Text)
    → rel (record { rooted = rooted; up = base }) (record { rooted = rooted; up = ps ++ base })
      ≡ some (reverse ps)
unfolding rel bool_eq
rel-below true base ps = rw (reverse-append ps base) (rel_parts-append (reverse base) (reverse ps))
rel-below false base ps = rw (reverse-append ps base) (rel_parts-append (reverse base) (reverse ps))
