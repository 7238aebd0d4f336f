-- ===== src/Auth/Gate/Access.antt =====
-- What a request needs to get past each of the two gates, and what it is told otherwise.
use mathlib.Core.Path.{subst}
use leartech_go_common.Base.{
  ◌≡◌, refl, sym, ◌↔◌, ◌⊎◌, inl, inr, true, Option, none, some, List, [], ◌∷◌, Text, contains,
  is_empty, Bool-cases, arith, text_eq, text_eq_iff,
}
use leartech_go_common.Auth.Scopes.{
  has_api, has_internal_service, scope_api, scope_internal_services, is_scoped, shares,
}
use leartech_go_common.Auth.Scopes.AnyOf.{Common, is_permitted_iff}
use leartech_go_common.Auth.Gate.{TokenClaims, next, is_token_allowed_access, middleware_with_hint}

-- Who may pass when permissions are required.
abbrev pub MayPass : List Text → TokenClaims → Type 0
MayPass required claims =
    (is_empty required ≡ true)
    ⊎ ((contains claims.scopes scope_internal_services ≡ true)
        ⊎ ((contains claims.scopes scope_api ≡ true) × Common claims.permissions required))

text_eq-swap : (s t : Text) → text_eq s t ≡ text_eq t s
text_eq-swap s t = ground (arith, text_eq_iff s t, text_eq_iff t s)

shares-one : (ss : List Text) (t : Text) → shares ss (t ∷ []) ≡ contains ss t
unfolding shares contains
shares-one [] t = refl
shares-one (s ∷ ss) t = rw (text_eq-swap t s) (ground (arith, shares-one ss t))

is_scoped-one : (ss : List Text) (t : Text) → is_scoped ss (t ∷ []) ≡ contains ss t
unfolding is_scoped contains
is_scoped-one [] t = refl
is_scoped-one (s ∷ ss) t = shares-one (s ∷ ss) t

has_internal_service-contains :
    (ss : List Text) → has_internal_service ss ≡ contains ss scope_internal_services
unfolding has_internal_service
has_internal_service-contains ss = is_scoped-one ss scope_internal_services

has_api-contains : (ss : List Text) → has_api ss ≡ contains ss scope_api
unfolding has_api
has_api-contains ss = is_scoped-one ss scope_api

some_inj : {a b : TokenClaims} → Path (Option TokenClaims) (some a) (some b) → a ≡ b
some_inj h = cc

access-MayPass :
    (required : List Text) (claims : TokenClaims)
    → (is_token_allowed_access required claims ≡ true) ↔ MayPass required claims
unfolding is_token_allowed_access
access-MayPass required claims = (
  ground (
    arith,
    has_internal_service-contains claims.scopes,
    has_api-contains claims.scopes,
    is_permitted_iff claims.permissions required,
  ),
  ground (
    arith,
    has_internal_service-contains claims.scopes,
    has_api-contains claims.scopes,
    is_permitted_iff claims.permissions required,
  ),
)

-- A request passes the middleware just if it has verified claims and either nothing is required, or its
-- scopes include the internal-services scope, or they include the API scope and one of the required
-- permissions is among its own.
pub middleware-next :
    (required : List Text) (hint : Text) (o : Option TokenClaims)
    → (middleware_with_hint required hint o ≡ next)
      ↔ ((claims : TokenClaims) × (o ≡ some claims) × MayPass required claims)
unfolding middleware_with_hint
middleware-next required hint none = (λ h. cc, λ (claims, e, k). cc)
middleware-next required hint (some claims) =
    elim (Bool-cases (is_token_allowed_access required claims)) [
      | inl passes ↦
          rw passes (λ h. (claims, refl, (access-MayPass required claims).0 passes), λ h. refl)
      | inr stays ↦ rw stays (
        λ h. cc,
        λ (c, e, k). ground (
          arith,
          stays,
          (access-MayPass required claims).1 (subst (MayPass required) (sym (some_inj e)) k),
        ),
      )
    ]
