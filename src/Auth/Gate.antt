-- ===== src/Auth/Gate.antt =====
-- pkg/auth/verifier.go (the middleware), require_scope.go (the gate on one scope) and the hint of
-- discovery.go. What `GetRequestTokenClaimsFromGinContext` returned is an argument: the claims, or
-- nothing.
pub mod Access
use leartech_go_common.Base.{
  Bool, true, false, ◌&&◌, ◌||◌, not, Option, none, some, List, [], ◌∷◌, ◌++◌, Text, contains,
  codes, is_empty, if◌then◌else◌, ℕ,
}
use leartech_go_common.Base.Results.{Result, ok, err}
use leartech_go_common.Auth.Scopes.{has_api, has_internal_service, is_permitted}

-- The two lists of `TokenClaims` that the gates read.
pub record TokenClaims : Type 0 where
  pub permissions : List Text
  pub scopes : List Text

-- The middleware goes on to the next handler (with the claims stored, where it stores them), or
-- answers with a status and the `WWW-Authenticate` header.
pub data Response : Type 0 where
  next : Response
  abort : ℕ → Text → Response

abbrev pub status_unauthorized : ℕ
status_unauthorized = 401

abbrev pub status_forbidden : ℕ
status_forbidden = 403

unfoldable pub is_token_allowed_access : List Text → TokenClaims → Bool
unfolding has_internal_service has_api is_permitted
is_token_allowed_access required claims =
    if is_empty required
    then true
    else has_internal_service claims.scopes
      || (has_api claims.scopes && is_permitted claims.permissions required)

unfoldable pub middleware_with_hint : List Text → Text → Option TokenClaims → Response
unfolding is_token_allowed_access
middleware_with_hint required hint none = abort status_unauthorized hint
middleware_with_hint required hint (some claims) =
    if is_token_allowed_access required claims then next else abort status_forbidden []

-- The fields of `VerifierConfig` that the gates read, and `gated.seen`.
pub record Verifier : Type 0 where
  pub known_scopes : List Text
  pub resource_metadata_url : Text
  pub scopes_supported : List Text
  pub gated : List Text

-- `strings.Join(ss, " ")`
unfoldable pub join_spaced : List Text → Text
join_spaced [] = []
join_spaced (s ∷ []) = s
join_spaced (s ∷ t ∷ ss) = s ++ (0x20 ∷ join_spaced (t ∷ ss))

unfoldable pub www_authenticate_bearer_hint : Text → List Text → Text
unfolding join_spaced codes
www_authenticate_bearer_hint url supported =
    if is_empty url
    then []
    else codes "Bearer resource_metadata=\""
      ++ (url
          ++ (codes "\""
              ++ (if is_empty supported
                  then []
                  else codes ", scope=\"" ++ (join_spaced supported ++ codes "\""))))

unfoldable pub bearer_hint : Verifier → Text
unfolding www_authenticate_bearer_hint
bearer_hint v = www_authenticate_bearer_hint v.resource_metadata_url v.scopes_supported

unfoldable pub mark_gated : Text → Verifier → Verifier
mark_gated s v = record v { gated = if contains v.gated s then v.gated else s ∷ v.gated }

pub data Panic : Type 0 where
  nil_verifier : Panic
  empty_scope : Panic
  not_known : Text → Panic

-- The wiring half of `RequireScope`: it panics, or the verifier has the scope marked as gated.
unfoldable pub require_scope : Option Verifier → Text → Result Panic Verifier
unfolding mark_gated
require_scope none required = err nil_verifier
require_scope (some v) required =
    if is_empty required
    then err empty_scope
    else if contains v.known_scopes required
    then ok (mark_gated required v)
    else err (not_known required)

-- The handler that `RequireScope` returns.
unfoldable pub scope_handler : Verifier → Text → Option TokenClaims → Response
unfolding bearer_hint
scope_handler v required none = abort status_unauthorized (bearer_hint v)
scope_handler v required (some claims) =
    if contains claims.scopes required then next else abort status_forbidden []
