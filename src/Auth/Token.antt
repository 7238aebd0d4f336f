-- ===== src/Auth/Token.antt =====
-- pkg/auth: what a request's token says and when it is accepted (verifier.go: DecodeToken,
-- validateIssuer, GetRequestTokenClaimsFromGinContext; service_client.go: validateAudience,
-- getTokenFromHeader; claims.go). The JWT library is a parameter: `parse` gives the claims of a token
-- whose signature and times are good.
pub mod Accepted
pub mod Scoped
use leartech_go_common.Base.{
  ℕ, Bool, true, false, ◌&&◌, Option, none, some, List, [], ◌∷◌, ◌++◌, Text, codes, text_eq, leb,
  ◌==◌, ◌+◌, if◌then◌else◌, is_empty,
}
use leartech_go_common.Base.Results.{Result, ok, err, ◌>>=◌}
use leartech_go_common.Auth.Scopes.{
  Element, text, not_text, ClaimValue, absent, one, texts, array, another, ClaimError,
  new_scopes_from_any, new_permissions_from_any,
}
use leartech_go_common.Auth.Gate.{
  Verifier, scope_handler, TokenClaims, Response, middleware_with_hint,
}

-- A claim: a value, or a map of values (a map inside that map is `another`).
pub data Claim : Type 0 where
  value : ClaimValue → Claim
  object : List (Text × ClaimValue) → Claim

abbrev pub MapClaims : Type 0
MapClaims = List (Text × Claim)

pub data TokenError : Type 0 where
  missing_header bad_header not_verified : TokenError
  no_issuer issuer_type wrong_issuer : TokenError
  no_audience audience_type wrong_audience : TokenError
  no_subject : TokenError
  bad_scopes bad_permissions : ClaimError → TokenError

-- The fields of `TokenClaims`, with the two lists that the gates read in one.
pub record DecodedClaims : Type 0 where
  pub user_id : Text
  pub claims : TokenClaims
  pub tenant_id : Text
  pub user_role : Text
  pub external_id : Text

-- `m[key]`, and whether the key is there.
unfoldable pub lookup : {A : Type 0} → Text → List (Text × A) → Option A
lookup key [] = none
lookup key ((k, a) ∷ m) = if text_eq k key then some a else lookup key m

unfoldable pub check_issuer : Text → Option Claim → Option TokenError
check_issuer expected none = some no_issuer
check_issuer expected (some (object m)) = some issuer_type
check_issuer expected (some (value (one iss))) =
    if text_eq iss expected then none else some wrong_issuer
check_issuer expected (some (value absent)) = some issuer_type
check_issuer expected (some (value (texts ts))) = some issuer_type
check_issuer expected (some (value (array es))) = some issuer_type
check_issuer expected (some (value another)) = some issuer_type

unfoldable pub validate_issuer : MapClaims → Text → Option TokenError
unfolding check_issuer lookup codes
validate_issuer mc expected = check_issuer expected (lookup (codes "iss") mc)

-- The loop over the elements of an array.
unfoldable pub has_element : Text → List Element → Bool
has_element expected [] = false
has_element expected (text t ∷ es) = if text_eq t expected then true else has_element expected es
has_element expected (not_text ∷ es) = has_element expected es

unfoldable pub check_audience : Text → Option Claim → Option TokenError
unfolding has_element
check_audience expected none = some no_audience
check_audience expected (some (object m)) = some audience_type
check_audience expected (some (value (one aud))) =
    if text_eq aud expected then none else some wrong_audience
check_audience expected (some (value (array es))) =
    if has_element expected es then none else some wrong_audience
check_audience expected (some (value absent)) = some audience_type
check_audience expected (some (value (texts ts))) = some audience_type
check_audience expected (some (value another)) = some audience_type

unfoldable pub validate_audience : MapClaims → Text → Option TokenError
unfolding check_audience lookup codes
validate_audience mc expected = check_audience expected (lookup (codes "aud") mc)

-- A claim as a string, or the empty string.
unfoldable pub text_of : Option ClaimValue → Text
text_of none = []
text_of (some (one t)) = t
text_of (some absent) = []
text_of (some (texts ts)) = []
text_of (some (array es)) = []
text_of (some another) = []

unfoldable pub plain_value : Option Claim → Option ClaimValue
plain_value none = none
plain_value (some (value v)) = some v
plain_value (some (object m)) = some another

-- A claim as the parsers read it, where a missing key is `nil`.
unfoldable pub nil_or : Option ClaimValue → ClaimValue
nil_or none = absent
nil_or (some v) = v

unfoldable pub is_missing : ClaimValue → Bool
is_missing absent = true
is_missing (one t) = false
is_missing (texts ts) = false
is_missing (array es) = false
is_missing another = false

-- `scp`, or else `scope`.
unfoldable pub scopes_claim : MapClaims → ClaimValue
unfolding nil_or plain_value is_missing lookup codes
scopes_claim mc =
    let scp = nil_or (plain_value (lookup (codes "scp") mc)) in
    if is_missing scp then nil_or (plain_value (lookup (codes "scope") mc)) else scp

-- `ext` as a map, if it is one.
unfoldable pub ext_of : Option Claim → Option (List (Text × ClaimValue))
ext_of none = none
ext_of (some (value v)) = none
ext_of (some (object m)) = some m

unfoldable pub ext_text : Option (List (Text × ClaimValue)) → Text → Text
unfolding lookup text_of
ext_text none key = []
ext_text (some m) key = text_of (lookup key m)

-- `extractExtStringClaim`
unfoldable pub extract_ext_string_claim : MapClaims → Text → Text
unfolding ext_of ext_text lookup codes
extract_ext_string_claim mc key = ext_text (ext_of (lookup (codes "ext") mc)) key

unfoldable pub permissions_of : Option ClaimValue → Result ClaimError (List Text)
unfolding new_permissions_from_any
permissions_of none = ok []
permissions_of (some v) = new_permissions_from_any v

unfoldable pub ext_permissions : Option (List (Text × ClaimValue)) → Result ClaimError (List Text)
unfolding permissions_of lookup codes
ext_permissions none = ok []
ext_permissions (some m) = permissions_of (lookup (codes "Permissions") m)

-- `extractPermissionsFromClaims`
unfoldable pub extract_permissions_from_claims : MapClaims → Result ClaimError (List Text)
unfolding ext_permissions ext_of lookup codes
extract_permissions_from_claims mc = ext_permissions (ext_of (lookup (codes "ext") mc))

unfoldable pub with_permissions :
    MapClaims → Text → List Text → Result ClaimError (List Text) → Result TokenError DecodedClaims
unfolding extract_ext_string_claim codes
with_permissions mc user_id scopes (err e) = err (bad_permissions e)
with_permissions mc user_id scopes (ok permissions) = ok (record {
  user_id = user_id;
  claims = record { permissions = permissions; scopes = scopes };
  tenant_id = extract_ext_string_claim mc (codes "tenant_id");
  user_role = extract_ext_string_claim mc (codes "user_role");
  external_id = extract_ext_string_claim mc (codes "external_id");
})

unfoldable pub with_scopes :
    MapClaims → Text → Result ClaimError (List Text) → Result TokenError DecodedClaims
unfolding with_permissions extract_permissions_from_claims
with_scopes mc user_id (err e) = err (bad_scopes e)
with_scopes mc user_id (ok scopes) =
    with_permissions mc user_id scopes (extract_permissions_from_claims mc)

-- `NewTokenClaimsFromMapClaims`
unfoldable pub new_token_claims : MapClaims → Result TokenError DecodedClaims
unfolding with_scopes scopes_claim new_scopes_from_any text_of plain_value lookup codes
new_token_claims mc =
    let sub = text_of (plain_value (lookup (codes "sub") mc)) in
    if is_empty sub
    then err no_subject
    else with_scopes mc sub (new_scopes_from_any (scopes_claim mc))

-- `if err := …; err != nil { return nil, … }`
unfoldable pub unless_error :
    Option TokenError → Result TokenError DecodedClaims → Result TokenError DecodedClaims
unless_error (some e) rest = err e
unless_error none rest = rest

unfoldable pub check_claims : Text → Text → Option MapClaims → Result TokenError DecodedClaims
unfolding unless_error validate_issuer validate_audience new_token_claims
check_claims issuer audience none = err not_verified
check_claims issuer audience (some mc) =
    unless_error (validate_issuer mc issuer)
      (unless_error (validate_audience mc audience) (new_token_claims mc))

-- `Verifier.DecodeToken`
unfoldable pub decode_token :
    (Text → Option MapClaims) → Text → Text → Text → Result TokenError DecodedClaims
unfolding check_claims
decode_token parse issuer audience t = check_claims issuer audience (parse t)

-- A byte with the case of a letter put aside. No byte outside ASCII folds to a letter of `bearer`.
unfoldable pub fold_case : ℕ → ℕ
fold_case c = if leb b'A' c && leb c b'Z' then c + 32 else c

-- `strings.EqualFold`, for a second text of small letters.
unfoldable pub equal_fold : Text → Text → Bool
unfolding fold_case
equal_fold [] [] = true
equal_fold [] (b ∷ t) = false
equal_fold (a ∷ s) [] = false
equal_fold (a ∷ s) (b ∷ t) = fold_case a == b && equal_fold s t

-- `strings.SplitN(header, " ", 2)`: the part before the first space and the part after it, if there is
-- one.
unfoldable pub cut_space : Text → Option (Text × Text)
cut_space [] = none
cut_space (c ∷ s) =
    let rest = cut_space s in
    if c == 0x20
    then some ([], s)
    else elim rest [ none ↦ none | some parts ↦ some (c ∷ parts.0, parts.1) ]

unfoldable pub bearer_part : Option (Text × Text) → Result TokenError Text
unfolding equal_fold codes
bearer_part none = err bad_header
bearer_part (some (scheme, token)) =
    if equal_fold scheme (codes "bearer") then ok token else err bad_header

unfoldable pub get_token_from_header : Text → Result TokenError Text
unfolding bearer_part cut_space
get_token_from_header [] = err missing_header
get_token_from_header (c ∷ header) = bearer_part (cut_space (c ∷ header))

-- `GetRequestTokenClaimsFromGinContext`, with the claims that an earlier middleware stored.
unfoldable pub request_token_claims :
    (Text → Option MapClaims)
    → Text
    → Text
    → Option DecodedClaims
    → Text
    → Result TokenError DecodedClaims
unfolding decode_token get_token_from_header
request_token_claims parse issuer audience (some stored) header = ok stored
request_token_claims parse issuer audience none header =
    get_token_from_header header >>= decode_token parse issuer audience

unfoldable pub claims_or_none : Result TokenError DecodedClaims → Option TokenClaims
claims_or_none (err e) = none
claims_or_none (ok c) = some c.claims

-- `middlewareWithHint`, from the request.
unfoldable pub serve :
    (Text → Option MapClaims)
    → Text
    → Text
    → List Text
    → Text
    → Option DecodedClaims
    → Text
    → Response
unfolding middleware_with_hint claims_or_none request_token_claims
serve parse issuer audience required hint stored header =
    middleware_with_hint required hint
      (claims_or_none (request_token_claims parse issuer audience stored header))

-- The handler that `RequireScope` returns, on the request.
unfoldable pub serve_scope :
    (Text → Option MapClaims)
    → Text
    → Text
    → Verifier
    → Text
    → Option DecodedClaims
    → Text
    → Response
unfolding scope_handler claims_or_none request_token_claims
serve_scope parse issuer audience v required stored header =
    scope_handler v required
      (claims_or_none (request_token_claims parse issuer audience stored header))
