-- ===== src/Gateway/Client.antt =====
-- pkg/aigateway/client.go: the client of the gateway's API. `W` is the state of everything outside.
-- The JSON decoders, `json.Marshal`, `http.NewRequestWithContext` and the HTTP client are parameters.
pub mod Do
pub mod Scrub
pub mod Answer
use leartech_go_common.Base.{
  ℕ, zero, suc, ◌-◌, Bool, true, false, not, ◌&&◌, Option, none, some, List, [], ◌∷◌, ◌++◌, Text,
  codes, text_eq, has_prefix, decimal, is_empty, length, leb, ◌==◌, if◌then◌else◌,
}
use leartech_go_common.Gateway.Config.{correlate_session, correlate_run}
use leartech_go_common.Base.Results.{Result, ok, err, ◌>>=◌}

-- The errors of `errors.New` that a caller tests for.
pub data Sentinel : Type 0 where
  err_no_credential err_unauthenticated err_backend_unavailable err_forbidden : Sentinel

-- An error that wraps a sentinel and goes on with a text, the sentinel itself, or a text alone.
pub data ClientError : Type 0 where
  bare : Sentinel → ClientError
  wrapped : Sentinel → Text → ClientError
  plain : Text → ClientError

unfoldable pub sentinel_text : Sentinel → Text
unfolding codes
sentinel_text err_no_credential = codes "gateway: no credential to present"
sentinel_text err_unauthenticated = codes "gateway: the credential was not accepted"
sentinel_text err_backend_unavailable =
    codes
      "gateway: the auth backend is unavailable; this is an outage, not a problem with your credential"
sentinel_text err_forbidden = codes "gateway: request refused"

unfoldable pub error_message : ClientError → Text
unfolding sentinel_text codes
error_message (bare s) = sentinel_text s
error_message (wrapped s rest) = sentinel_text s ++ (codes ": " ++ rest)
error_message (plain s) = s

abbrev pub Headers : Type 0
Headers = List (Text × Text)

-- `Header.Set`
unfoldable pub set_header : Text → Text → Headers → Headers
unfolding text_eq
set_header key value [] = (key, value) ∷ []
set_header key value ((k, v) ∷ hs) =
    let rest = set_header key value hs in if text_eq k key then (key, value) ∷ hs else (k, v) ∷ rest

unfoldable pub get_header : Text → Headers → Option Text
unfolding text_eq
get_header key [] = none
get_header key ((k, v) ∷ hs) = if text_eq k key then some v else get_header key hs

pub record HttpRequest : Type 0 where
  pub method : Text
  pub url : Text
  pub headers : Headers
  pub body : Option Text

-- A response: its status, and what reading at most some number of bytes of its body gives.
pub record HttpResponse : Type 0 where
  pub status : ℕ
  pub read : ℕ → Result Text Text

-- `apiError`, with the raw JSON of `error`.
pub record ApiError : Type 0 where
  pub error : Text
  pub message : Text
  pub detail : Text

pub record NestedError : Type 0 where
  pub message : Text
  pub type : Text

-- `json.Unmarshal` into the three shapes of an error.
pub record Decoders : Type 0 where
  pub api_error : Text → Option ApiError
  pub nested : Text → Option NestedError
  pub flat : Text → Option Text

-- `http.NewRequestWithContext`, which may refuse a method or a URL, and `http.Client.Do`.
pub record Transport (W : Type 0) : Type 0 where
  pub build : Text → Text → Option Text
  pub round_trip : HttpRequest → W → Result Text HttpResponse × W

-- `correlate` gives a value and its kind.
pub record Client (W : Type 0) : Type 0 where
  pub base : Text
  pub token : Text
  pub correlate : Option (W → Text × Text)

-- `strings.TrimSuffix(base, "/")`
unfoldable pub trim_slash : Text → Text
trim_slash [] = []
trim_slash (c ∷ []) = if c == 0x2F then [] else c ∷ []
trim_slash (c ∷ d ∷ s) = c ∷ trim_slash (d ∷ s)

-- `strings.ReplaceAll` of a text that is not empty. `skip` bytes are of the occurrence before.
unfoldable pub replace_from : ℕ → Text → Text → Text → Text
unfolding has_prefix
replace_from skip old new [] = []
replace_from (suc skip) old new (c ∷ s) = replace_from skip old new s
replace_from zero old new (c ∷ s) =
    let found = replace_from (length old - 1) old new s in
    let on = replace_from 0 old new s in if has_prefix (c ∷ s) old then new ++ found else c ∷ on

-- `scrub`
unfoldable pub scrub : Text → Text → Text
unfolding replace_from codes
scrub token s = if is_empty token then s else replace_from 0 token (codes "[redacted]") s

-- The cases of `errorText` on the nested shape.
unfoldable pub nested_text : NestedError → Option Text
unfolding codes
nested_text n =
    if not (is_empty n.message) && not (is_empty n.type)
    then some (n.type ++ (codes ": " ++ n.message))
    else if not (is_empty n.message)
    then some n.message
    else if not (is_empty n.type)
    then some n.type
    else none

unfoldable pub flat_text : Text → Text → Option Text
unfolding codes
flat_text detail s =
    if is_empty s
    then none
    else if is_empty detail
    then some s
    else some (s ++ (codes ": " ++ detail))

unfoldable pub last_text : ApiError → Text
last_text e = if is_empty e.detail then e.message else e.detail

-- The first text of two.
unfoldable pub first_text : Option Text → Option Text → Option Text
first_text (some s) o = some s
first_text none o = o

unfoldable pub bind_text {ℓ} : {A : Type ℓ} → Option A → (A → Option Text) → Option Text
bind_text none f = none
bind_text (some a) f = f a

unfoldable pub text_or : Option Text → Text → Text
text_or none s = s
text_or (some t) s = t

-- `errorText`
unfoldable pub error_text : Decoders → ApiError → Text
unfolding first_text bind_text nested_text flat_text text_or last_text
error_text d e =
    text_or
      (if is_empty e.error
        then none
        else first_text (bind_text (d.nested e.error) nested_text)
            (bind_text (d.flat e.error) (flat_text e.detail)))
      (last_text e)

-- `reason`, of what `errorText` gives.
unfoldable pub reason_of : Text → Text → Text
unfolding scrub codes
reason_of token t = if is_empty t then [] else codes ": " ++ scrub token t

unfoldable pub decoded_reason : Decoders → Text → Option ApiError → Text
unfolding reason_of error_text
decoded_reason d token none = []
decoded_reason d token (some e) = reason_of token (error_text d e)

unfoldable pub reason : Decoders → Text → Text → Text
unfolding decoded_reason
reason d token raw = decoded_reason d token (d.api_error raw)

-- `%s %s`, a word and a number.
unfoldable pub refused_text : Text → Text → Text → ℕ → Text → Text
unfolding codes decimal
refused_text method path verb status why =
    method
    ++ (codes " " ++ (path ++ (codes " " ++ (verb ++ (codes " " ++ (decimal status ++ why))))))

-- `statusError`
unfoldable pub status_error : Text → Text → ℕ → Text → Option ClientError
unfolding refused_text codes
status_error method path status why =
    if status == 401
    then some (wrapped err_unauthenticated (refused_text method path (codes "said") 401 why))
    else if status == 403
    then some (wrapped err_forbidden (refused_text method path (codes "said") 403 why))
    else if status == 503
    then some
        (wrapped err_backend_unavailable (refused_text method path (codes "returned") 503 why))
    else if leb 400 status
    then some (plain (codes "gateway: " ++ refused_text method path (codes "returned") status why))
    else none

abbrev pub max_error_body : ℕ
max_error_body = 8388608

-- The switch of `stamp`.
unfoldable pub stamp_value : Text × Text → Headers → Headers
unfolding set_header text_eq codes correlate_session correlate_run
stamp_value (value, kind) hs =
    if is_empty value
    then hs
    else if text_eq kind correlate_session
    then set_header (codes "X-Leartech-Session-Id") value hs
    else if text_eq kind correlate_run
    then set_header (codes "X-Leartech-Run-Id") value hs
    else hs

unfoldable pub content_type : Option Text → Headers → Headers
unfolding set_header codes
content_type none hs = hs
content_type (some body) hs = set_header (codes "Content-Type") (codes "application/json") hs

-- `json.Marshal` of a body, where there is one.
unfoldable pub encoded : Option (Result Text Text) → Result ClientError (Option Text)
unfolding codes
encoded none = ok none
encoded (some (ok body)) = ok (some body)
encoded (some (err e)) = err (plain (codes "gateway: encode the request: " ++ e))

module _ {W : Type 0} where
  -- `New`
  unfoldable pub new_client : Text → Text → Client W
  unfolding trim_slash
  new_client base token = record { base = trim_slash base; token = token; correlate = none }

  -- `Correlate`
  unfoldable pub with_correlate : Client W → Option (W → Text × Text) → Client W
  with_correlate c id = record c { correlate = id }

  unfoldable pub stamp_by : Option (W → Text × Text) → Headers → W → Headers
  unfolding stamp_value
  stamp_by none hs w = hs
  stamp_by (some id) hs w = stamp_value (id w) hs

  unfoldable pub stamp : Client W → Headers → W → Headers
  unfolding stamp_by
  stamp c hs w = stamp_by c.correlate hs w

  unfoldable pub request_headers : Client W → Text → Option Text → W → Headers
  unfolding stamp content_type set_header codes
  request_headers c accept body w =
      stamp c
        (content_type body (
          set_header (codes "Accept") accept
            (set_header (codes "Authorization") (codes "Bearer " ++ c.token) [])))
        w

-- A request, if `http.NewRequestWithContext` makes one.
unfoldable pub if_built : Option Text → HttpRequest → Result ClientError HttpRequest
unfolding codes
if_built none req = ok req
if_built (some e) req = err (plain (codes "gateway: build the request: " ++ e))

module _ {W : Type 0} (transport : Transport W) (decoders : Decoders) where
  unfoldable pub built :
      Client W → Text → Text → Text → Option Text → W → Result ClientError HttpRequest
  unfolding if_built request_headers
  built c method path accept body w = if_built (transport.build method (c.base ++ path)) (record {
    method = method;
    url = c.base ++ path;
    headers = request_headers c accept body w;
    body = body;
  })

  -- `newRequest`
  unfoldable pub new_request :
      Client W → Text → Text → Text → Option (Result Text Text) → W → Result ClientError HttpRequest
  unfolding encoded built
  new_request c method path accept body w =
      if is_empty c.token
      then err (bare err_no_credential)
      else (encoded body >>= (λ b. built c method path accept b w))
