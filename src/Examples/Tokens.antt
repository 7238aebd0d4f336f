-- ===== src/Examples/Tokens.antt =====
-- pkg/auth at a concrete token.
use leartech_go_common.Base.{
  ◌≡◌, ◌≢◌, ◌↔◌, refl, Option, none, some, List, [], ◌∷◌, ◌++◌, false, contains, codes, Text,
  text_eq,
}
use leartech_go_common.Base.Results.{ok}
use leartech_go_common.Auth.Scopes.{text, not_text, one, array}
use leartech_go_common.Auth.Gate.{Verifier, next, abort}
use leartech_go_common.Auth.Gate.Access.{MayPass}
use leartech_go_common.Auth.Token.{
  value, object, MapClaims, DecodedClaims, lookup, decode_token, new_token_claims,
  get_token_from_header, serve, serve_scope,
}
use leartech_go_common.Auth.Token.Scoped.{Verified, serve_scope-outcomes}
use leartech_go_common.Auth.Token.Accepted.{Bound, decode_token-accepts, serve-next}

abbrev user_token : MapClaims
user_token =
    (codes "iss", value (one (codes "https://auth")))
    ∷ (codes "aud", value (array (not_text ∷ text (codes "api") ∷ [])))
    ∷ (codes "sub", value (one (codes "u1")))
    ∷ (codes "scp", value (array (text (codes "leartechapi") ∷ [])))
    ∷ (codes "ext", object ((codes "Permissions", array (text (codes "read") ∷ [])) ∷ []))
    ∷ []

abbrev verify : Text → Option MapClaims
verify t = some user_token

abbrev user : DecodedClaims
user = record {
  user_id = codes "u1";
  claims = record { permissions = codes "read" ∷ []; scopes = codes "leartechapi" ∷ [] };
  tenant_id = [];
  user_role = [];
  external_id = [];
}

decode_token-accepts_example :
    (decode_token verify (codes "https://auth") (codes "api") (codes "t") ≡ ok user) ↔ (
      (mc : MapClaims) × (verify (codes "t") ≡ some mc)
      × Bound (codes "https://auth") (codes "api") mc
      × (new_token_claims mc ≡ ok user))
decode_token-accepts_example =
    decode_token-accepts verify (codes "https://auth") (codes "api") (codes "t") user

served :
    serve verify (codes "https://auth") (codes "api") (codes "read" ∷ []) [] none (codes "beArer t")
    ≡ next
unfolding serve text_eq
served = refl

-- The same token for another audience.
other_audience :
    serve verify (codes "https://auth") (codes "web") [] [] none (codes "Bearer t") ≡ abort 401 []
unfolding serve text_eq
other_audience = refl

serve-next_example :
    (token : Text) × (mc : MapClaims) × (c : DecodedClaims) × (get_token_from_header
        (codes "beArer t")
      ≡ ok token)
    × (verify token ≡ some mc)
    × Bound (codes "https://auth") (codes "api") mc
    × (lookup (codes "sub") mc ≡ some (value (one c.user_id)))
    × (c.user_id ≢ [])
    × MayPass (codes "read" ∷ []) c.claims
serve-next_example =
    serve-next verify (codes "https://auth") (codes "api") (codes "read" ∷ []) [] (codes "beArer t")
      served

abbrev api_service : Verifier
api_service = record {
  known_scopes = codes "leartechapi" ∷ [];
  resource_metadata_url = [];
  scopes_supported = codes "leartechapi" ∷ [];
  gated = codes "leartechapi" ∷ [];
}

let_through :
    serve_scope verify
      (codes "https://auth")
      (codes "api")
      api_service
      (codes "leartechapi")
      none
      (codes "Bearer t")
    ≡ next
unfolding serve_scope text_eq contains
let_through = refl

serve_scope-outcomes_example :
    ((serve_scope verify
          (codes "https://auth")
          (codes "api")
          api_service
          (codes "other")
          none
          (codes "Bearer t")
        ≡ next)
      ↔ ((c : DecodedClaims) × Verified verify
            (codes "https://auth")
            (codes "api")
            (codes "Bearer t")
            c
          × ((before : List Text) × (after : List Text) × (c.claims.scopes
                ≡ before ++ codes "other" ∷ after))))
    × ((serve_scope verify
            (codes "https://auth")
            (codes "api")
            api_service
            (codes "other")
            none
            (codes "Bearer t")
          ≡ abort 403 [])
        ↔ ((c : DecodedClaims) × Verified verify
              (codes "https://auth")
              (codes "api")
              (codes "Bearer t")
              c
            × (contains c.claims.scopes (codes "other") ≡ false)))
serve_scope-outcomes_example =
    serve_scope-outcomes verify (codes "https://auth") (codes "api") api_service (codes "other")
      (codes "Bearer t")
