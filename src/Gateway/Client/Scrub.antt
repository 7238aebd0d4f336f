-- ===== src/Gateway/Client/Scrub.antt =====
-- pkg/aigateway/client.go: a token does not survive `scrub`.
use mathlib.Core.Path.{◌≡◌, refl, sym, ap, ◌∙◌}
use leartech_go_common.Base.{
  ℕ, zero, suc, ◌-◌, Bool, true, false, Option, none, some, [], ◌∷◌, ◌++◌, Text, codes, has_prefix,
  length, is_empty, ◌==◌, if◌then◌else◌, Bool-cases, inl, inr, arith,
}
use leartech_go_common.Gateway.Client.{
  ApiError, Decoders, replace_from, scrub, reason_of, error_text, decoded_reason, reason,
}

-- A text stands somewhere in another.
unfoldable pub occurs : Text → Text → Bool
unfolding has_prefix
occurs t [] = is_empty t
occurs t (c ∷ s) = let on = occurs t s in if has_prefix (c ∷ s) t then true else on

-- A text without the byte.
abbrev pub Lacks : ℕ → Text → Type 0
Lacks b [] = Unit
Lacks b (c ∷ s) = ((c == b) ≡ false) × Lacks b s

-- What a text and then a byte that `t` lacks starts with, the text starts with.
before_byte :
    (b : ℕ) (u r t : Text) → Lacks b t → has_prefix (u ++ b ∷ r) t ≡ true → has_prefix u t ≡ true
unfolding has_prefix
before_byte b u r [] h e = refl
before_byte b [] r (d ∷ t) (h, hs) e = absurd (ground (arith, h, e))
before_byte b (c ∷ u) r (d ∷ t) (h, hs) e =
    ground (arith, e, before_byte b u r t hs (ground (arith, e)))

not_empty : (t : Text) → is_empty t ≡ false → has_prefix [] t ≡ true → ⊥
unfolding has_prefix
not_empty [] h e = cc
not_empty (c ∷ t) h e = cc

occurs-tail : (c : ℕ) (u t : Text) → occurs t (c ∷ u) ≡ false → occurs t u ≡ false
unfolding occurs
occurs-tail c u t h = elim (Bool-cases (has_prefix (c ∷ u) t)) [
  | inl here ↦ absurd (ground (arith, h, here))
  | inr on ↦ ground (arith, h, on)
]

occurs-nil : (t : Text) → is_empty t ≡ false → occurs t [] ≡ false
unfolding occurs
occurs-nil t h = h

-- An occurrence in a text, a byte that `t` lacks and a further text is in one of the two.
occurs-after :
    (b : ℕ) (u r t : Text)
    → is_empty t ≡ false
    → Lacks b t
    → occurs t u ≡ false
    → occurs t r ≡ false
    → occurs t (u ++ b ∷ r) ≡ false
unfolding occurs
occurs-after b [] r t some_t h hu hr = elim (Bool-cases (has_prefix (b ∷ r) t)) [
  | inl here ↦ absurd (not_empty t some_t (before_byte b [] r t h here))
  | inr on ↦ rw on hr
]
occurs-after b (c ∷ u) r t some_t h hu hr = elim (Bool-cases (has_prefix (c ∷ u ++ b ∷ r) t)) [
  | inl here ↦ absurd (ground (arith, hu, before_byte b (c ∷ u) r t h here))
  | inr on ↦ rw on (occurs-after b u r t some_t h (occurs-tail c u t hu) hr)
]

abbrev redacted : Text
redacted = codes "[redacted]"

-- What stands for the token, and a further text.
occurs-redacted :
    (t r : Text)
    → is_empty t ≡ false
    → Lacks 0x5B t
    → Lacks 0x5D t
    → occurs t (codes "redacted") ≡ false
    → occurs t r ≡ false
    → occurs t (redacted ++ r) ≡ false
unfolding codes
occurs-redacted t r some_t left right other h =
    occurs-after 0x5B [] (codes "redacted" ++ 0x5D ∷ r) t some_t left (occurs-nil t some_t)
      (occurs-after 0x5D (codes "redacted") r t some_t right other h)

no_both : {b : Bool} → b ≡ true → b ≡ false → ⊥
no_both e h = cc

replaced_found :
    (token new s : Text) (c : ℕ)
    → has_prefix (c ∷ s) token ≡ true
    → replace_from 0 token new (c ∷ s) ≡ new ++ replace_from (length token - 1) token new s
unfolding replace_from
replaced_found token new s c found = rw found refl

replaced_on :
    (token new s : Text) (c : ℕ)
    → has_prefix (c ∷ s) token ≡ false
    → replace_from 0 token new (c ∷ s) ≡ c ∷ replace_from 0 token new s
unfolding replace_from
replaced_on token new s c on = rw on refl

no_bracket_first :
    (d : ℕ) (t r : Text) → (d == 0x5B) ≡ false → has_prefix (redacted ++ r) (d ∷ t) ≡ true → ⊥
unfolding has_prefix codes
no_bracket_first d t r h e = ground (arith, h, e)

-- What the scrubbed text starts with, the text starts with.
prefix_before :
    (token s t : Text)
    → Lacks 0x5B t
    → has_prefix (replace_from 0 token redacted s) t ≡ true
    → has_prefix s t ≡ true
unfolding has_prefix replace_from
prefix_before token s [] h e = refl
prefix_before token [] (d ∷ t) h e = e
prefix_before token (c ∷ s) (d ∷ t) (h, hs) e = elim (Bool-cases (has_prefix (c ∷ s) token)) [
  | inl found ↦ absurd (
      no_bracket_first d t (replace_from (length token - 1) token redacted s) h
        (ap (λ r. has_prefix r (d ∷ t)) (sym (replaced_found token redacted s c found)) ∙ e))
  | inr on ↦
      let e' : has_prefix (c ∷ replace_from 0 token redacted s) (d ∷ t) ≡ true =
        ap (λ r. has_prefix r (d ∷ t)) (sym (replaced_on token redacted s c on)) ∙ e in
      ground (arith, e', prefix_before token s t hs (ground (arith, e')))
]

literal_clean :
    (token s : Text) (c : ℕ)
    → Lacks 0x5B token
    → has_prefix (c ∷ s) token ≡ false
    → occurs token (replace_from 0 token redacted s) ≡ false
    → occurs token (c ∷ replace_from 0 token redacted s) ≡ false
unfolding occurs
literal_clean token s c left on h =
    elim (Bool-cases (has_prefix (c ∷ replace_from 0 token redacted s) token)) [
      | inl here ↦ absurd (
          no_both
            (prefix_before token (c ∷ s) token left
              (ap (λ r. has_prefix r token) (replaced_on token redacted s c on) ∙ here))
            on)
      | inr clean ↦ rw clean h
    ]

-- The text that is scrubbed does not have the token, from any byte after an occurrence on.
replaced_clean :
    (token : Text) (skip : ℕ) (s : Text)
    → is_empty token ≡ false
    → Lacks 0x5B token
    → Lacks 0x5D token
    → occurs token (codes "redacted") ≡ false
    → occurs token (replace_from skip token redacted s) ≡ false
unfolding replace_from
replaced_clean token skip [] some_t left right other = occurs-nil token some_t
replaced_clean token (suc skip) (c ∷ s) some_t left right other =
    replaced_clean token skip s some_t left right other
replaced_clean token zero (c ∷ s) some_t left right other =
    elim (Bool-cases (has_prefix (c ∷ s) token)) [
      | inl found ↦
          ap (occurs token) (replaced_found token redacted s c found)
          ∙ occurs-redacted token (replace_from (length token - 1) token redacted s) some_t left
              right other (replaced_clean token (length token - 1) s some_t left right other)
      | inr on ↦
          ap (occurs token) (replaced_on token redacted s c on)
          ∙ literal_clean token s c left on (replaced_clean token 0 s some_t left right other)
    ]

-- A text in which no token stands, whatever the colon and the space before it.
abbrev pub IsToken : Text → Type 0
IsToken token =
    (is_empty token ≡ false)
    × Lacks 0x5B token
    × Lacks 0x5D token
    × Lacks 0x20 token
    × (occurs token (codes ":") ≡ false)
    × (occurs token (codes "redacted") ≡ false)

reason_of-no_token : (token t : Text) → IsToken token → occurs token (reason_of token t) ≡ false
unfolding reason_of scrub codes
reason_of-no_token token t (some_t, left, right, space, colon, other) =
    elim (Bool-cases (is_empty t)) [
      | inl blank ↦ rw blank (occurs-nil token some_t)
      | inr told ↦
          rw (told, some_t)
            (occurs-after 0x20 (codes ":") (replace_from 0 token redacted t) token some_t space
              colon (replaced_clean token 0 t some_t left right other))
    ]

decoded_reason-no_token :
    (d : Decoders) (token : Text) (e : Option ApiError)
    → IsToken token
    → occurs token (decoded_reason d token e) ≡ false
unfolding decoded_reason
decoded_reason-no_token d token none h = occurs-nil token h.0
decoded_reason-no_token d token (some e) h = reason_of-no_token token (error_text d e) h

-- A token that is not empty, has no bracket and no space, is not `:`, and does not stand in the word
-- `redacted`, stands nowhere in the reason that an error of the client gives, whatever the gateway
-- answered and however its body is decoded.
pub reason-no_token :
    (d : Decoders) (token raw : Text) → IsToken token → occurs token (reason d token raw) ≡ false
unfolding reason
reason-no_token d token raw h = decoded_reason-no_token d token (d.api_error raw) h
