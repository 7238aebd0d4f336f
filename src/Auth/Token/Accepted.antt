-- ===== src/Auth/Token/Accepted.antt =====
-- What an accepted token says.
use mathlib.Core.Path.{subst}
use leartech_go_common.Base.{
  true, ◌≡◌, ◌≢◌, ◌↔◌, ◌⊎◌, inl, inr, refl, sym, ap, ◌∙◌, arith, Option, none, some, List, [], ◌∷◌,
  ◌++◌, Text, codes, text_eq, text_eq_iff, text_eq_refl, Bool-cases, if◌then◌else◌, is_empty,
}
use leartech_go_common.Base.Results.{Result, ok, err, ◌>>=◌, >>=-eq-ok}
use leartech_go_common.Auth.Scopes.{
  Element, text, not_text, one, array, absent, texts, another, ClaimError, new_scopes_from_any,
}
use leartech_go_common.Auth.Gate.{TokenClaims, next}
use leartech_go_common.Auth.Gate.Access.{MayPass, middleware-next}
use leartech_go_common.Auth.Token.{
  Claim, value, object, MapClaims, TokenError, no_subject, scopes_claim, DecodedClaims, lookup,
  check_issuer, validate_issuer, has_element, check_audience, validate_audience, text_of,
  plain_value, with_permissions, with_scopes, new_token_claims, unless_error, check_claims,
  decode_token, get_token_from_header, request_token_claims, claims_or_none, serve,
}

-- An `aud` claim is the audience itself, or an array that has it.
abbrev pub Names : Text → Option Claim → Type 0
Names audience c =
    (c ≡ some (value (one audience)))
    ⊎ ((before : List Element) × (after : List Element) × (c
          ≡ some (value (array (before ++ text audience ∷ after)))))

check_issuer_iff :
    (issuer : Text) (c : Option Claim)
    → (check_issuer issuer c ≡ none) ↔ (c ≡ some (value (one issuer)))
unfolding check_issuer
check_issuer_iff issuer none = (λ h. cc, λ h. cc)
check_issuer_iff issuer (some (object m)) = (λ h. cc, λ h. cc)
check_issuer_iff issuer (some (value (one iss))) =
    (λ h. ground (arith, text_eq_iff iss issuer), λ h. ground (arith, text_eq_iff iss issuer))
check_issuer_iff issuer (some (value absent)) = (λ h. cc, λ h. cc)
check_issuer_iff issuer (some (value (texts ts))) = (λ h. cc, λ h. cc)
check_issuer_iff issuer (some (value (array es))) = (λ h. cc, λ h. cc)
check_issuer_iff issuer (some (value another)) = (λ h. cc, λ h. cc)

has_element-split :
    (audience : Text) (es : List Element)
    → has_element audience es ≡ true
    → (before : List Element) × (after : List Element) × (es ≡ before ++ text audience ∷ after)
unfolding has_element
has_element-split audience [] h = cc
has_element-split audience (text t ∷ es) h = elim (Bool-cases (text_eq t audience)) [
  | inl same ↦ ([], es, ap (λ u. text u ∷ es) ((text_eq_iff t audience).0 same))
  | inr other ↦
      let (before, after, e) = has_element-split audience es (ground arith) in
      (text t ∷ before, after, ap (λ r. text t ∷ r) e)
]
has_element-split audience (not_text ∷ es) h =
    let (before, after, e) = has_element-split audience es h in
    (not_text ∷ before, after, ap (λ r. not_text ∷ r) e)

has_element-middle :
    (audience : Text) (before after : List Element)
    → has_element audience (before ++ text audience ∷ after) ≡ true
unfolding has_element
has_element-middle audience [] after = rw (text_eq_refl audience) refl
has_element-middle audience (text t ∷ before) after =
    ground (arith, has_element-middle audience before after)
has_element-middle audience (not_text ∷ before) after = has_element-middle audience before after

check_audience-Names :
    (audience : Text) (c : Option Claim) → check_audience audience c ≡ none → Names audience c
unfolding check_audience
check_audience-Names audience none h = cc
check_audience-Names audience (some (object m)) h = cc
check_audience-Names audience (some (value (one aud))) h =
    inl (ap (λ t. some (value (one t))) (ground (arith, text_eq_iff aud audience)))
check_audience-Names audience (some (value (array es))) h =
    let (before, after, e) = has_element-split audience es (ground arith) in
    inr (before, after, ap (λ x. some (value (array x))) e)
check_audience-Names audience (some (value absent)) h = cc
check_audience-Names audience (some (value (texts ts))) h = cc
check_audience-Names audience (some (value another)) h = cc

check_audience_passes :
    (audience : Text) (c : Option Claim) → Names audience c → check_audience audience c ≡ none
unfolding check_audience
check_audience_passes audience c (inl e) = rw (e, text_eq_refl audience) refl
check_audience_passes audience c (inr (before, after, e)) =
    rw (e, has_element-middle audience before after) refl

unless_error-ok :
    (o : Option TokenError) (r : Result TokenError DecodedClaims) (c : DecodedClaims)
    → (unless_error o r ≡ ok c) ↔ ((o ≡ none) × (r ≡ ok c))
unfolding unless_error
unless_error-ok none r c = (λ h. (refl, h), λ (e, h). h)
unless_error-ok (some e) r c = (λ h. cc, λ (e, h). cc)

-- The claims that `DecodeToken` checks before it reads the others.
abbrev pub Bound : Text → Text → MapClaims → Type 0
Bound issuer audience mc =
    (lookup (codes "iss") mc ≡ some (value (one issuer))) × Names audience (lookup (codes "aud") mc)

Bound-accepts :
    (issuer audience : Text) (mc : MapClaims) (c : DecodedClaims)
    → Bound issuer audience mc
    → new_token_claims mc ≡ ok c
    → check_claims issuer audience (some mc) ≡ ok c
unfolding check_claims validate_issuer validate_audience
Bound-accepts issuer audience mc c (i, a) k =
    (unless_error-ok _
        (unless_error (check_audience audience (lookup (codes "aud") mc)) (new_token_claims mc))
        c).1
      (
        (check_issuer_iff issuer (lookup (codes "iss") mc)).1 i,
        (unless_error-ok _ (new_token_claims mc) c).1
            (check_audience_passes audience (lookup (codes "aud") mc) a, k),
      )

check_claims-accepts :
    (issuer audience : Text) (o : Option MapClaims) (c : DecodedClaims)
    → (check_claims issuer audience o ≡ ok c)
      ↔ ((mc : MapClaims) × (o ≡ some mc) × Bound issuer audience mc × (new_token_claims mc ≡ ok c))
unfolding check_claims validate_issuer validate_audience
check_claims-accepts issuer audience none c = (λ h. cc, λ (mc, e, b, k). cc)
check_claims-accepts issuer audience (some mc) c = (
  λ h.
      let (i, rest) = (unless_error-ok _ _ c).0 h in
      let (a, made) = (unless_error-ok _ _ c).0 rest in
      (
        mc,
        refl,
        (
          (check_issuer_iff issuer (lookup (codes "iss") mc)).0 i,
          check_audience-Names audience (lookup (codes "aud") mc) a,
        ),
        made,
      ),
  λ (mc', e, (i, a), k).
      ap (check_claims issuer audience) e ∙ Bound-accepts issuer audience mc' c (i, a) k,
)

-- `DecodeToken` accepts a token with given claims just if the JWT library verifies it, its `iss` is the
-- issuer, its `aud` is the audience or an array that has it, and the claims are those that
-- `NewTokenClaimsFromMapClaims` reads.
pub decode_token-accepts :
    (parse : Text → Option MapClaims) (issuer audience t : Text) (c : DecodedClaims)
    → (decode_token parse issuer audience t ≡ ok c) ↔ (
        (mc : MapClaims) × (parse t ≡ some mc)
        × Bound issuer audience mc
        × (new_token_claims mc ≡ ok c))
unfolding decode_token
decode_token-accepts parse issuer audience t c = check_claims-accepts issuer audience (parse t) c

text_of-nonempty :
    (o : Option Claim)
    → text_of (plain_value o) ≢ []
    → o ≡ some (value (one (text_of (plain_value o))))
unfolding text_of plain_value
text_of-nonempty none h = absurd (h refl)
text_of-nonempty (some (object m)) h = absurd (h refl)
text_of-nonempty (some (value (one t))) h = refl
text_of-nonempty (some (value absent)) h = absurd (h refl)
text_of-nonempty (some (value (texts ts))) h = absurd (h refl)
text_of-nonempty (some (value (array es))) h = absurd (h refl)
text_of-nonempty (some (value another)) h = absurd (h refl)

with_scopes-user_id :
    (mc : MapClaims) (sub : Text) (r : Result ClaimError (List Text)) (c : DecodedClaims)
    → with_scopes mc sub r ≡ ok c
    → c.user_id ≡ sub
unfolding with_scopes with_permissions
with_scopes-user_id mc sub r c h = ground arith

subject_read :
    (mc : MapClaims) (sub : Text) (r : Result ClaimError (List Text)) (c : DecodedClaims)
    → (if is_empty sub then err no_subject else with_scopes mc sub r) ≡ ok c
    → (sub ≢ []) × (c.user_id ≡ sub)
subject_read mc [] r c h = cc
subject_read mc (x ∷ sub) r c h = (λ e. cc, with_scopes-user_id mc (x ∷ sub) r c h)

new_token_claims-subject :
    (mc : MapClaims) (c : DecodedClaims)
    → new_token_claims mc ≡ ok c
    → (lookup (codes "sub") mc ≡ some (value (one c.user_id))) × (c.user_id ≢ [])
unfolding new_token_claims
new_token_claims-subject mc c h =
    let (some_sub, same) =
      subject_read mc (text_of (plain_value (lookup (codes "sub") mc)))
        (new_scopes_from_any (scopes_claim mc)) c h in
    rw same (text_of-nonempty (lookup (codes "sub") mc) some_sub, some_sub)

claims_or_none-some :
    (r : Result TokenError DecodedClaims) (claims : TokenClaims)
    → claims_or_none r ≡ some claims
    → (c : DecodedClaims) × (r ≡ ok c) × (c.claims ≡ claims)
unfolding claims_or_none
claims_or_none-some (err e) claims h = cc
claims_or_none-some (ok c) claims h = (c, refl, cc)

-- A request without stored claims that the middleware lets pass has a bearer token that the JWT
-- library verifies, issued by the issuer for the audience and with a subject, and its claims meet the
-- requirement.
pub serve-next :
    (parse : Text → Option MapClaims) (issuer audience : Text) (required : List Text)
    (hint header : Text)
    → serve parse issuer audience required hint none header ≡ next
    → (token : Text) × (mc : MapClaims) × (c : DecodedClaims) × (get_token_from_header header
        ≡ ok token)
      × (parse token ≡ some mc)
      × Bound issuer audience mc
      × (lookup (codes "sub") mc ≡ some (value (one c.user_id)))
      × (c.user_id ≢ [])
      × MayPass required c.claims
unfolding serve request_token_claims
serve-next parse issuer audience required hint header h =
    let (claims, some_claims, may) =
      (middleware-next required hint
          (claims_or_none (get_token_from_header header >>= decode_token parse issuer audience))).0
        h in
    let (c, decoded, same) =
      claims_or_none-some (get_token_from_header header >>= decode_token parse issuer audience)
        claims some_claims in
    let (token, from_header, accepted) =
      >>=-eq-ok (get_token_from_header header) (decode_token parse issuer audience) decoded in
    let (mc, parsed, bound, made) =
      (decode_token-accepts parse issuer audience token c).0 accepted in
    let (sub, some_sub) = new_token_claims-subject mc c made in
    (
      token,
      mc,
      c,
      from_header,
      parsed,
      bound,
      sub,
      some_sub,
      subst (MayPass required) (sym same) may,
    )
