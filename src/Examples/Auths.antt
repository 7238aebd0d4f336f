-- ===== src/Examples/Auths.antt =====
-- pkg/auth at concrete tokens and routes.
use leartech_go_common.Base.{
  ◌≡◌, ◌↔◌, refl, true, [], ◌∷◌, map, Text, codes, some, contains, All, arith, text_eq,
}
use leartech_go_common.Base.Results.{ok}
use leartech_go_common.Auth.Scopes.{text, one, array, new_scopes_from_any, scope_api}
use leartech_go_common.Auth.Scopes.Forms.{IsWord, scope_forms-agree}
use leartech_go_common.Auth.Gate.{TokenClaims, next, middleware_with_hint, Verifier, join_spaced}
use leartech_go_common.Auth.Gate.Access.{MayPass, middleware-next}
use leartech_go_common.Auth.Surface.{scope_surface, is_surface_empty, wire}
use leartech_go_common.Auth.Surface.Agree.{surface_agrees}

abbrev reading : Text
reading = codes "artifact:read"

abbrev writing : Text
writing = codes "artifact:write"

abbrev service : Verifier
service = record {
  known_scopes = reading ∷ writing ∷ [];
  resource_metadata_url = codes "https://a.example/meta";
  scopes_supported = writing ∷ reading ∷ [];
  gated = [];
}

abbrev wired_service : Verifier
wired_service = record service { gated = writing ∷ reading ∷ [] }

abbrev reader : TokenClaims
reader = record { permissions = codes "User" ∷ []; scopes = reading ∷ scope_api ∷ [] }

both_wired : wire (reading ∷ writing ∷ []) service ≡ ok wired_service
unfolding wire contains codes text_eq
both_wired = refl

lists_agree : is_surface_empty (scope_surface wired_service) ≡ true
unfolding is_surface_empty scope_surface contains codes text_eq
lists_agree = refl

surface_agrees_example :
    (contains service.known_scopes reading ≡ contains (reading ∷ writing ∷ []) reading)
    × (contains service.scopes_supported reading ≡ contains (reading ∷ writing ∷ []) reading)
surface_agrees_example =
    surface_agrees (reading ∷ writing ∷ []) service wired_service reading refl both_wired
      lists_agree

middleware-next_example :
    (middleware_with_hint (codes "User" ∷ []) [] (some reader) ≡ next)
    ↔ ((claims : TokenClaims) × (some reader ≡ some claims) × MayPass (codes "User" ∷ []) claims)
middleware-next_example = middleware-next (codes "User" ∷ []) [] (some reader)

words_visible : All IsWord (codes "openid" ∷ codes "offline" ∷ [])
unfolding codes
words_visible = ground arith

scope_forms-agree_example :
    (new_scopes_from_any (array (map text (codes "openid" ∷ codes "offline" ∷ [])))
      ≡ ok (codes "openid" ∷ codes "offline" ∷ []))
    × (new_scopes_from_any (one (join_spaced (codes "openid" ∷ codes "offline" ∷ [])))
        ≡ ok (codes "openid" ∷ codes "offline" ∷ []))
scope_forms-agree_example = scope_forms-agree (codes "openid" ∷ codes "offline" ∷ []) words_visible
