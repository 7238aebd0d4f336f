-- ===== src/Gateway/Api.antt =====
-- pkg/aigateway/api.go: the calls of the gateway's API, and what a caller reads off their answers. A
-- time is its text, and the JSON of a request and of an answer is an argument.
use leartech_go_common.Base.{
  Bool, true, false, Option, none, some, List, [], ◌∷◌, ◌++◌, Text, codes, text_eq, contains,
  is_empty, if◌then◌else◌,
}
use leartech_go_common.Base.Int.{ℤ, pos, add_int, sub_int}
use leartech_go_common.Base.Results.{Result, ok, err}
use leartech_go_common.Gateway.Stream.{ChatUsage}
use leartech_go_common.Gateway.Client.{ClientError, plain, Decoders, Transport, Client}
use leartech_go_common.Gateway.Client.Do.{exchange}

pub record Key : Type 0 where
  pub keyid : Text
  pub name : Text
  pub scopes : List Text
  pub model_allowlist : List Text
  pub rate_limit_rpm : Option ℤ
  pub budget_micros : Option ℤ
  pub expires_at : Option Text
  pub revoked_at : Option Text
  pub created_by : Option Text
  pub created_at : Option Text
  pub last_used_at : Option Text

unfoldable pub revoked : Key → Bool
revoked k = elim k.revoked_at [ none ↦ false | some t ↦ true ]

unfoldable pub denies_every_model : Key → Bool
denies_every_model k = is_empty k.model_allowlist

pub record CreateKeyResponse : Type 0 where
  pub keyid : Text
  pub secret : Text
  pub key : Key

pub record UsageRow : Type 0 where
  pub keyid : Text
  pub model : Text
  pub calls : ℤ
  pub prompt_tokens : ℤ
  pub completion_tokens : ℤ
  pub cost_micros : ℤ
  pub cache_read_tokens : ℤ
  pub cache_write_5m_tokens : ℤ
  pub cache_write_1h_tokens : ℤ
  pub cacheable_calls : ℤ

unfoldable pub cache_write_tokens : UsageRow → ℤ
unfolding add_int
cache_write_tokens r = add_int r.cache_write_5m_tokens r.cache_write_1h_tokens

pub record UsageResponse : Type 0 where
  pub since : Text
  pub rows : List UsageRow

pub record Model : Type 0 where
  pub id : Text
  pub object : Text
  pub owned_by : Text
  pub interface : Text
  pub provider_model : Text
  pub provider : Text
  pub hosting : Text
  pub max_ctx : ℤ
  pub vision : Bool
  pub surfaces : List Text

unfoldable pub serves_surface : Model → Text → Bool
unfolding contains text_eq codes
serves_surface m surface =
    if is_empty m.surfaces then text_eq surface (codes "chat") else contains m.surfaces surface

pub data ServedKind : Type 0 where
  served_unreported served_directly served_indirectly : ServedKind

unfoldable pub serves : Model → Text × ServedKind
unfolding text_eq
serves m =
    if is_empty m.provider_model
    then ([], served_unreported)
    else if text_eq m.provider_model m.id
    then (m.id, served_directly)
    else (m.provider_model, served_indirectly)

unfoldable pub cached_tokens : ChatUsage → ℤ
cached_tokens u = elim u.prompt_tokens_details [ none ↦ pos 0 | some n ↦ n ]

unfoldable pub cache_reported : ChatUsage → Bool
cache_reported u = elim u.prompt_tokens_details [
  | some n ↦ true
  | none ↦ elim u.leartech_cache [ none ↦ false | some c ↦ true ]
]

unfoldable pub cache_write_5m_tokens : ChatUsage → ℤ
cache_write_5m_tokens u = elim u.leartech_cache [ none ↦ pos 0 | some c ↦ c.write_5m_tokens ]

unfoldable pub cache_write_1h_tokens : ChatUsage → ℤ
cache_write_1h_tokens u = elim u.leartech_cache [ none ↦ pos 0 | some c ↦ c.write_1h_tokens ]

-- `FreshTokens`
unfoldable pub fresh_tokens : ChatUsage → ℤ
unfolding sub_int cached_tokens cache_write_5m_tokens cache_write_1h_tokens
fresh_tokens u =
    sub_int (sub_int (sub_int u.prompt_tokens (cached_tokens u)) (cache_write_5m_tokens u))
      (cache_write_1h_tokens u)

-- One of the alternatives of a `ChatResponse`; the content of its message.
pub record ChatChoice : Type 0 where
  pub index : ℤ
  pub content : Text
  pub finish_reason : Text

pub record ChatResponse : Type 0 where
  pub id : Text
  pub model : Text
  pub choices : List ChatChoice
  pub usage : ChatUsage

unfoldable pub chat_reply : ChatResponse → Text × Bool
chat_reply r = elim r.choices [ [] ↦ ([], false) | c ∷ cs ↦ (c.content, true) ]

-- What `AmendKey` makes of the keys of its answer.
unfoldable pub first_key : Text → List Key → Result ClientError Key
unfolding codes
first_key keyid [] = err (
    plain (
      codes "the gateway reported "
      ++ (keyid
          ++ codes
              " amended but returned no key; run `ship-proven keys list` to see what it now holds")))
first_key keyid (k ∷ ks) = ok k

unfoldable pub amended : Text → Result ClientError (List Key) → Result ClientError Key
unfolding first_key
amended keyid (err e) = err e
amended keyid (ok keys) = first_key keyid keys

module _ {W : Type 0} (transport : Transport W) (decoders : Decoders) (c : Client W) where
  unfoldable pub list_keys : (Text → Result Text (List Key)) → W → Result ClientError (List Key) × W
  unfolding exchange codes
  list_keys decode w =
      exchange transport decoders c (codes "GET") (codes "/admin/v1/keys") none decode w

  unfoldable pub create_key :
      Result Text Text
      → (Text → Result Text CreateKeyResponse)
      → W
      → Result ClientError CreateKeyResponse × W
  unfolding exchange codes
  create_key req decode w =
      exchange transport decoders c (codes "POST") (codes "/admin/v1/keys") (some req) decode w

  unfoldable pub rotate_key :
      Text → (Text → Result Text CreateKeyResponse) → W → Result ClientError CreateKeyResponse × W
  unfolding exchange codes
  rotate_key keyid decode w =
      exchange transport decoders c (codes "POST")
        (codes "/admin/v1/keys/" ++ (keyid ++ codes "/rotate")) none decode w

  unfoldable pub amend_key :
      Text → Result Text Text → (Text → Result Text (List Key)) → W → Result ClientError Key × W
  unfolding exchange amended codes
  amend_key keyid req decode w =
      let (got, v) =
        exchange transport decoders c (codes "PATCH") (codes "/admin/v1/keys/" ++ keyid) (some req)
          decode w in
      (amended keyid got, v)

  -- `out` is nil: the body is not decoded.
  unfoldable pub revoke_key : Text → W → Result ClientError (Unit {0}) × W
  unfolding exchange codes
  revoke_key keyid w =
      exchange transport decoders c (codes "DELETE") (codes "/admin/v1/keys/" ++ keyid) none
        (λ raw. ok tt) w

  unfoldable pub set_budget {ℓ} :
      {A : Type ℓ} → Text → Result Text Text → (Text → Result Text A) → W → Result ClientError A × W
  unfolding exchange codes
  set_budget keyid req decode w =
      exchange transport decoders c (codes "PUT")
        (codes "/admin/v1/keys/" ++ (keyid ++ codes "/budget")) (some req) decode w

  unfoldable pub usage_of :
      (Text → Result Text UsageResponse) → W → Result ClientError UsageResponse × W
  unfolding exchange codes
  usage_of decode w =
      exchange transport decoders c (codes "GET") (codes "/admin/v1/usage") none decode w

  unfoldable pub models :
      (Text → Result Text (List Model)) → W → Result ClientError (List Model) × W
  unfolding exchange codes
  models decode w = exchange transport decoders c (codes "GET") (codes "/v1/models") none decode w

  unfoldable pub chat :
      Result Text Text → (Text → Result Text ChatResponse) → W → Result ClientError ChatResponse × W
  unfolding exchange codes
  chat req decode w =
      exchange transport decoders c (codes "POST") (codes "/v1/chat/completions") (some req) decode
        w

  unfoldable pub pricing {ℓ} : {A : Type ℓ} → (Text → Result Text A) → W → Result ClientError A × W
  unfolding exchange codes
  pricing decode w =
      exchange transport decoders c (codes "GET") (codes "/admin/v1/pricing") none decode w

  unfoldable pub transform_session {ℓ} :
      {A : Type ℓ} → Result Text Text → (Text → Result Text A) → W → Result ClientError A × W
  unfolding exchange codes
  transform_session req decode w =
      exchange transport decoders c (codes "POST") (codes "/v1/sessions/transform") (some req)
        decode w
