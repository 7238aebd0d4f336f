-- ===== src/Auth/Scopes.antt =====
-- pkg/auth/scopes.go and permissions.go: the two lists of a token, parsed from a claim and compared
-- with what a route requires.
pub mod AnyOf
pub mod Forms
use leartech_go_common.Base.{
  ℕ, zero, suc, Bool, true, false, List, [], ◌∷◌, ◌++◌, Text, text_eq, contains, codes, is_empty,
  if◌then◌else◌, ◌==◌, ltb, leb, ◌-◌, ◌&&◌, ◌||◌, has_prefix,
}
use leartech_go_common.Base.Trim.{space_width}
use leartech_go_common.Base.Results.{Result, ok, err, ◌>>=◌}

-- An element of an array claim: a string, or a value of another type.
pub data Element : Type 0 where
  text : Text → Element
  not_text : Element

-- The value of a claim, as far as the parsers tell values apart. `texts` is a `[]string`.
pub data ClaimValue : Type 0 where
  absent : ClaimValue
  one : Text → ClaimValue
  texts : List Text → ClaimValue
  array : List Element → ClaimValue
  another : ClaimValue

pub data ClaimError : Type 0 where
  not_a_string : ClaimError
  invalid_type : ClaimError

-- `strings.Fields`, with the field read so far and the bytes of white space left to pass over.
unfoldable pub fields_from : Text → ℕ → Text → List Text
unfolding space_width
fields_from part skip [] = if is_empty part then [] else part ∷ []
fields_from part (suc skip) (c ∷ s) = fields_from part skip s
fields_from part zero (c ∷ s) =
    let on = fields_from (part ++ c ∷ []) 0 s in
    let next = fields_from [] (space_width (c ∷ s) - 1) s in
    if space_width (c ∷ s) == 0 then on else if is_empty part then next else part ∷ next

unfoldable pub string_elements : List Element → Result ClaimError (List Text)
string_elements [] = ok []
string_elements (text t ∷ es) = string_elements es >>= (λ ts. ok (t ∷ ts))
string_elements (not_text ∷ es) = err not_a_string

unfoldable pub new_scopes_from_any : ClaimValue → Result ClaimError (List Text)
unfolding fields_from string_elements
new_scopes_from_any absent = ok []
new_scopes_from_any (one t) = ok (fields_from [] 0 t)
new_scopes_from_any (texts ts) = err invalid_type
new_scopes_from_any (array es) = string_elements es
new_scopes_from_any another = err invalid_type

unfoldable pub new_permissions_from_any : ClaimValue → Result ClaimError (List Text)
unfolding string_elements
new_permissions_from_any absent = err invalid_type
new_permissions_from_any (one t) = ok (t ∷ [])
new_permissions_from_any (texts ts) = ok ts
new_permissions_from_any (array es) = string_elements es
new_permissions_from_any another = err invalid_type

-- `slices.Contains(required, have)` for one of the elements of a list.
unfoldable pub shares : List Text → List Text → Bool
unfolding contains
shares [] required = false
shares (have ∷ haves) required = if contains required have then true else shares haves required

unfoldable pub is_scoped : List Text → List Text → Bool
unfolding shares
is_scoped scopes required =
    if is_empty scopes then false else if is_empty required then true else shares scopes required

unfoldable pub is_permitted : List Text → List Text → Bool
unfolding shares
is_permitted permissions required =
    if is_empty required
    then true
    else if is_empty permissions
    then false
    else shares permissions required

abbrev pub scope_api : Text
scope_api = codes "leartechapi"

abbrev pub scope_internal_services : Text
scope_internal_services = codes "leartechapi.internal_services"

unfoldable pub has_internal_service : List Text → Bool
unfolding is_scoped
has_internal_service scopes = is_scoped scopes (scope_internal_services ∷ [])

unfoldable pub has_api : List Text → Bool
unfolding is_scoped
has_api scopes = is_scoped scopes (scope_api ∷ [])
