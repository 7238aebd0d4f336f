-- ===== src/Auth/Scopes/Forms.antt =====
-- The array form and the space-separated form of a scope claim.
use leartech_go_common.Base.{
  ℕ, ◌≡◌, ◌<◌, refl, ap, false, List, [], ◌∷◌, ◌++◌, map, Text, All, arith, is_empty, append-nil,
  append_assoc, has_prefix, ◌↔◌, sym, ◌∙◌,
}
use leartech_go_common.Base.Trim.{space_width}
use leartech_go_common.Base.Results.{Result, ok, >>=-eq-ok}
use leartech_go_common.Auth.Scopes.{
  Element, text, not_text, ClaimError, new_permissions_from_any, one, array, string_elements,
  fields_from, new_scopes_from_any,
}
use leartech_go_common.Auth.Gate.{join_spaced}

string_elements-map : (ts : List Text) → string_elements (map text ts) ≡ ok ts
unfolding string_elements
string_elements-map [] = refl
string_elements-map (t ∷ ts) = rw (string_elements-map ts) refl

ok_list : {us ts : List Text} → Path (Result ClaimError (List Text)) (ok us) (ok ts) → us ≡ ts
ok_list h = cc

string_elements-exact :
    (es : List Element) (ts : List Text) → string_elements es ≡ ok ts → es ≡ map text ts
unfolding string_elements
string_elements-exact [] [] h = refl
string_elements-exact [] (t ∷ ts) h = cc
string_elements-exact (text t ∷ es) ts h =
    let (us, rest, whole) = >>=-eq-ok (string_elements es) (λ us. ok (t ∷ us)) h in
    rw (sym (ok_list whole)) (ap (λ r. text t ∷ r) (string_elements-exact es us rest))
string_elements-exact (not_text ∷ es) ts h = cc

-- A word of a claim: not empty, of visible ASCII bytes.
abbrev pub IsVisible : ℕ → Type 0
IsVisible c = (0x20 < c) × (c < 0x7F)

abbrev pub IsWord : Text → Type 0
IsWord t = (is_empty t ≡ false) × All IsVisible t

space_width-visible : (c : ℕ) (s : Text) → IsVisible c → space_width (c ∷ s) ≡ 0
unfolding space_width has_prefix
space_width-visible c s (above, below) = ground arith

fields_from-word :
    (part w s : Text) → All IsVisible w → fields_from part 0 (w ++ s) ≡ fields_from (part ++ w) 0 s
unfolding fields_from
fields_from-word part [] s h = rw (append-nil part) refl
fields_from-word part (c ∷ w) s (here, rest) = rw (space_width-visible c (w ++ s) here) (
    fields_from-word (part ++ c ∷ []) w s rest
    ∙ ap (λ z. fields_from z 0 s) (append_assoc part (c ∷ []) w))

fields_from-space :
    (w s : Text) → is_empty w ≡ false → fields_from w 0 (0x20 ∷ s) ≡ w ∷ fields_from [] 0 s
unfolding fields_from space_width
fields_from-space w s h = rw h refl

fields_from-end : (w : Text) → is_empty w ≡ false → fields_from w 0 [] ≡ w ∷ []
unfolding fields_from
fields_from-end w h = rw h refl

fields_from-last : (t : Text) → IsWord t → fields_from [] 0 t ≡ t ∷ []
fields_from-last t (filled, visible) =
    ap (fields_from [] 0) (sym (append-nil t))
    ∙ fields_from-word [] t [] visible
    ∙ fields_from-end t filled

fields_from-join : (ts : List Text) → All IsWord ts → fields_from [] 0 (join_spaced ts) ≡ ts
unfolding join_spaced fields_from
fields_from-join [] h = refl
fields_from-join (t ∷ []) (h, _) = fields_from-last t h
fields_from-join (t ∷ u ∷ ts) ((filled, visible), rest) =
    fields_from-word [] t (0x20 ∷ join_spaced (u ∷ ts)) visible
    ∙ fields_from-space t (join_spaced (u ∷ ts)) filled
    ∙ ap (λ r. t ∷ r) (fields_from-join (u ∷ ts) rest)

-- A scope claim in its array form and one in its space-separated form with the same words are parsed to
-- the same scopes, in order, whatever visible ASCII words they are.
pub scope_forms-agree :
    (ts : List Text)
    → All IsWord ts
    → (new_scopes_from_any (array (map text ts)) ≡ ok ts)
      × (new_scopes_from_any (one (join_spaced ts)) ≡ ok ts)
unfolding new_scopes_from_any
scope_forms-agree ts h = (string_elements-map ts, ap ok (fields_from-join ts h))

string_elements_iff :
    (es : List Element) (ts : List Text) → (string_elements es ≡ ok ts) ↔ (es ≡ map text ts)
string_elements_iff es ts = (string_elements-exact es ts, λ e. rw e (string_elements-map ts))

-- A claim that is an array is accepted only if every element is a string, and then no element is lost:
-- the scopes and the permissions read from it are those strings.
pub array_claim_exact :
    (es : List Element) (ts : List Text)
    → ((new_scopes_from_any (array es) ≡ ok ts) ↔ (es ≡ map text ts))
      × ((new_permissions_from_any (array es) ≡ ok ts) ↔ (es ≡ map text ts))
unfolding new_scopes_from_any new_permissions_from_any
array_claim_exact es ts = (string_elements_iff es ts, string_elements_iff es ts)
