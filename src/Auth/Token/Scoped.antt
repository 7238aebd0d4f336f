-- ===== src/Auth/Token/Scoped.antt =====
-- pkg/auth/require_scope.go: which requests pass a route that requires a scope.
use leartech_go_common.Base.{
  ℕ, Bool, true, false, ◌≡◌, ◌↔◌, inl, inr, refl, sym, ap, ◌∙◌, arith, Option, none, some, List, [],
  ◌∷◌, ◌++◌, Text, text_eq, text_eq_iff, text_eq_refl, contains, Bool-cases,
}
use leartech_go_common.Base.Results.{Result, ok, err, ◌>>=◌, >>=-eq-ok, ok-injective}
use leartech_go_common.Auth.Gate.{Verifier, Response, next, abort, scope_handler}
use leartech_go_common.Auth.Token.{
  MapClaims, TokenError, DecodedClaims, new_token_claims, decode_token, get_token_from_header,
  request_token_claims, claims_or_none, serve_scope,
}
use leartech_go_common.Auth.Token.Accepted.{Bound, decode_token-accepts}

no_both {ℓ} : {A : Type ℓ} {b : Bool} → b ≡ true → b ≡ false → A
no_both e h = absurd cc

contains-split :
    (ss : List Text) (t : Text)
    → contains ss t ≡ true
    → (before : List Text) × (after : List Text) × (ss ≡ before ++ t ∷ after)
unfolding contains
contains-split [] t h = cc
contains-split (s ∷ ss) t h = elim (Bool-cases (text_eq s t)) [
  | inl here ↦ ([], ss, ap (λ x. x ∷ ss) ((text_eq_iff s t).0 here))
  | inr later ↦
      let (before, after, e) = contains-split ss t (ground (arith, h, later)) in
      (s ∷ before, after, ap (λ r. s ∷ r) e)
]

split-contains : (before after : List Text) (t : Text) → contains (before ++ t ∷ after) t ≡ true
unfolding contains
split-contains [] after t = rw (text_eq_refl t) refl
split-contains (s ∷ before) after t = elim (Bool-cases (text_eq s t)) [
  | inl here ↦ rw here refl
  | inr later ↦ rw later (split-contains before after t)
]

-- A header with a bearer token that the JWT library verifies, issued by the issuer for the audience,
-- from which the claims are read.
abbrev pub Verified : (Text → Option MapClaims) → Text → Text → Text → DecodedClaims → Type 0
Verified parse issuer audience header c =
    (token : Text) × (mc : MapClaims) × (get_token_from_header header ≡ ok token)
    × (parse token ≡ some mc)
    × Bound issuer audience mc
    × (new_token_claims mc ≡ ok c)

request_token_claims-Verified :
    (parse : Text → Option MapClaims) (issuer audience header : Text) (c : DecodedClaims)
    → (request_token_claims parse issuer audience none header ≡ ok c)
      ↔ Verified parse issuer audience header c
unfolding request_token_claims
request_token_claims-Verified parse issuer audience header c = (
  λ h.
      let (token, from_header, accepted) =
        >>=-eq-ok (get_token_from_header header) (decode_token parse issuer audience) h in
      let (mc, parsed, bound, made) =
        (decode_token-accepts parse issuer audience token c).0 accepted in
      (token, mc, from_header, parsed, bound, made),
  λ (token, mc, from_header, parsed, bound, made).
      ap (λ r. r >>= decode_token parse issuer audience) from_header
      ∙ (decode_token-accepts parse issuer audience token c).1 (mc, parsed, bound, made),
)

abbrev status_of : Response → ℕ
status_of next = 0
status_of (abort status hint) = status

unlike : {s t : Text} → abort 401 s ≡ abort 403 t → ⊥
unlike h = absurd (omega (arith, ap status_of h))

scope_handler-lets :
    (v : Verifier) (required : Text) (r : Result TokenError DecodedClaims)
    → (scope_handler v required (claims_or_none r) ≡ next)
      ↔ ((c : DecodedClaims) × (r ≡ ok c) × (contains c.claims.scopes required ≡ true))
unfolding scope_handler claims_or_none
scope_handler-lets v required (err e) = (λ h. cc, λ (c, k, m). cc)
scope_handler-lets v required (ok c) = elim (Bool-cases (contains c.claims.scopes required)) [
  | inl has ↦ rw has (λ h. (c, refl, has), λ h. refl)
  | inr lacks ↦ rw lacks (
    λ h. cc,
    λ (d, k, m).
        no_both m (ap (λ x. contains x.claims.scopes required) (sym (ok-injective k)) ∙ lacks),
  )
]

scope_handler-forbids :
    (v : Verifier) (required : Text) (r : Result TokenError DecodedClaims)
    → (scope_handler v required (claims_or_none r) ≡ abort 403 [])
      ↔ ((c : DecodedClaims) × (r ≡ ok c) × (contains c.claims.scopes required ≡ false))
unfolding scope_handler claims_or_none
scope_handler-forbids v required (err e) = (λ h. absurd (unlike h), λ (c, k, m). cc)
scope_handler-forbids v required (ok c) = elim (Bool-cases (contains c.claims.scopes required)) [
  | inl has ↦ rw has (
    λ h. cc,
    λ (d, k, m). no_both has (ap (λ x. contains x.claims.scopes required) (ok-injective k) ∙ m),
  )
  | inr lacks ↦ rw lacks (λ h. (c, refl, lacks), λ h. refl)
]

-- A request without stored claims passes a route that requires a scope just if its header has a bearer
-- token that the JWT library verifies, issued by the issuer for the audience, from which claims are
-- read, and the scopes read from it have the required one. It is answered 403 just if there is such a
-- token and its scopes do not have the required one.
pub serve_scope-outcomes :
    (parse : Text → Option MapClaims) (issuer audience : Text) (v : Verifier)
    (required header : Text)
    → ((serve_scope parse issuer audience v required none header ≡ next) ↔ (
        (c : DecodedClaims) × Verified parse issuer audience header c
        × ((before : List Text) × (after : List Text) × (c.claims.scopes
              ≡ before ++ required ∷ after))))
      × ((serve_scope parse issuer audience v required none header ≡ abort 403 []) ↔ (
          (c : DecodedClaims) × Verified parse issuer audience header c
          × (contains c.claims.scopes required ≡ false)))
unfolding serve_scope
serve_scope-outcomes parse issuer audience v required header =
    let r : Result TokenError DecodedClaims =
      request_token_claims parse issuer audience none header in
    let read = request_token_claims-Verified parse issuer audience header in
    (
      (
        λ h.
            let (c, e, has) = (scope_handler-lets v required r).0 h in
            (c, (read c).0 e, contains-split c.claims.scopes required has),
        λ (c, verified, (before, after, e)). (scope_handler-lets v required r).1 (
          c,
          (read c).1 verified,
          ap (λ ss. contains ss required) e ∙ split-contains before after required,
        ),
      ),
      (
        λ h.
            let (c, e, lacks) = (scope_handler-forbids v required r).0 h in
            (c, (read c).0 e, lacks),
        λ (c, verified, lacks).
            (scope_handler-forbids v required r).1 (c, (read c).1 verified, lacks),
      ),
    )
