-- ===== src/Gateway/Client/Answer.antt =====
-- pkg/aigateway/client.go: what stands behind an answer of `do`.
use mathlib.Core.Path.{◌≡◌, refl, ap, ◌∙◌, subst}
use leartech_go_common.Base.{
  ℕ, Bool, true, false, Option, none, some, [], ◌∷◌, ◌++◌, Text, codes, text_eq, text_eq_iff,
  is_empty, leb, ◌==◌, if◌then◌else◌, Bool-cases, inl, inr, arith,
}
use leartech_go_common.Base.Results.{Result, ok, err, ◌>>=◌, >>=-eq-ok, ok-injective}
use leartech_go_common.Gateway.Config.{correlate_session, correlate_run}
use leartech_go_common.Gateway.Client.{
  ClientError, Headers, set_header, get_header, HttpRequest, HttpResponse, Decoders, Transport,
  Client, reason, status_error, stamp_value, stamp_by, if_built, content_type, stamp,
  request_headers, encoded, built, new_request, max_error_body,
}
use leartech_go_common.Gateway.Client.Do.{
  read_body, check_status, decoded_as, answer_of, response_of, exchanged, exchange,
}

-- Another header is as it was.
get_header-set :
    (key k value : Text) (hs : Headers)
    → text_eq k key ≡ false
    → get_header key (set_header k value hs) ≡ get_header key hs
unfolding get_header set_header
get_header-set key k value [] h = rw h refl
get_header-set key k value ((j, v) ∷ hs) h = elim (Bool-cases (text_eq j k)) [
  | inl same ↦ let e = (text_eq_iff j k).0 same in rw (same, h, ap (λ x. text_eq x key) e ∙ h) refl
  | inr other ↦ elim (Bool-cases (text_eq j key)) [
    | inl found ↦ rw (other, found) refl
    | inr on ↦ rw (other, on) (get_header-set key k value hs h)
  ]
]

abbrev authorization : Text
authorization = codes "Authorization"

err≢ok : {A : Type 0} {e : ClientError} {a : A} → ◌≡◌ {A = Result ClientError A} (err e) (ok a) → ⊥
err≢ok h = cc

ap2_pair : {A B : Type 0} {a a' : A} {b b' : B} → a ≡ a' → b ≡ b' → ◌≡◌ {A = A × B} (a, b) (a', b')
ap2_pair e f = cc

either_branch :
    {A : Type 0} (P : A → Type 0) (b : Bool) {x y : A} → P x → P y → P (if b then x else y)
either_branch P true h k = h
either_branch P false h k = k

-- The headers say of the authorization what others do.
abbrev Agrees : Headers → Headers → Type 0
Agrees hs hs' = get_header authorization hs' ≡ get_header authorization hs

stamp_value-authorization : (id : Text × Text) (hs : Headers) → Agrees hs (stamp_value id hs)
unfolding stamp_value text_eq codes
stamp_value-authorization (value, kind) hs = either_branch (Agrees hs) (is_empty value) refl (
    either_branch (Agrees hs) (text_eq kind correlate_session)
      (get_header-set authorization (codes "X-Leartech-Session-Id") value hs refl)
      (either_branch (Agrees hs) (text_eq kind correlate_run)
        (get_header-set authorization (codes "X-Leartech-Run-Id") value hs refl) refl))

content_type-authorization :
    (body : Option Text) (hs : Headers)
    → get_header authorization (content_type body hs) ≡ get_header authorization hs
unfolding content_type text_eq codes
content_type-authorization none hs = refl
content_type-authorization (some body) hs =
    get_header-set authorization (codes "Content-Type") (codes "application/json") hs refl

stamp_by-authorization :
    {W : Type 0} (id : Option (W → Text × Text)) (hs : Headers) (w : W)
    → Agrees hs (stamp_by id hs w)
unfolding stamp_by
stamp_by-authorization none hs w = refl
stamp_by-authorization (some id) hs w = stamp_value-authorization (id w) hs

request_headers-authorization :
    {W : Type 0} (c : Client W) (accept : Text) (body : Option Text) (w : W)
    → get_header authorization (request_headers c accept body w) ≡ some (codes "Bearer " ++ c.token)
unfolding request_headers stamp set_header get_header text_eq codes
request_headers-authorization c accept body w =
    let hs : Headers =
      set_header (codes "Accept") accept
        (set_header (codes "Authorization") (codes "Bearer " ++ c.token) []) in
    stamp_by-authorization c.correlate (content_type body hs) w ∙ content_type-authorization body hs

if_built-eq-ok : (e : Option Text) (req out : HttpRequest) → if_built e req ≡ ok out → req ≡ out
unfolding if_built
if_built-eq-ok none req out h = ok-injective h
if_built-eq-ok (some e) req out h = cc

read_body-eq-ok :
    (method path : Text) (r : Result Text Text) (raw : Text)
    → read_body method path r ≡ ok raw
    → r ≡ ok raw
unfolding read_body
read_body-eq-ok method path (ok s) raw h = ap ok (ok-injective h)
read_body-eq-ok method path (err e) raw h = cc

check_status-eq-ok :
    (e : Option ClientError) (s raw : Text) → check_status e s ≡ ok raw → (e ≡ none) × (s ≡ raw)
unfolding check_status
check_status-eq-ok none s raw h = (refl, ok-injective h)
check_status-eq-ok (some e) s raw h = cc

decoded_as-eq-ok :
    {A : Type 0} (method path : Text) (status : ℕ) (r : Result Text A) (a : A)
    → decoded_as method path status r ≡ ok a
    → r ≡ ok a
unfolding decoded_as
decoded_as-eq-ok method path status (ok b) a h = ap ok (ok-injective h)
decoded_as-eq-ok method path status (err e) a h = cc

-- The refused statuses.
status_error-none :
    (method path why : Text) (status : ℕ)
    → status_error method path status why ≡ none
    → leb 400 status ≡ false
unfolding status_error
status_error-none method path why status h = elim (Bool-cases (status == 401)) [
  | inl e ↦ absurd (ground (arith, h, e))
  | inr e ↦ elim (Bool-cases (status == 403)) [
    | inl f ↦ absurd (ground (arith, h, e, f))
    | inr f ↦ elim (Bool-cases (status == 503)) [
      | inl g ↦ absurd (ground (arith, h, e, f, g))
      | inr g ↦ elim (Bool-cases (leb 400 status)) [
        | inl k ↦ absurd (ground (arith, h, e, f, g, k))
        | inr k ↦ k
      ]
    ]
  ]
]

module _ {W : Type 0} (transport : Transport W) (decoders : Decoders) where
  -- The request that is made carries the token, and goes to the path below the base.
  abbrev pub Carries : Client W → Text → Text → HttpRequest → Type 0
  Carries c method path req =
      (is_empty c.token ≡ false)
      × (req.method ≡ method)
      × (req.url ≡ c.base ++ path)
      × (get_header authorization req.headers ≡ some (codes "Bearer " ++ c.token))

  -- What stands behind an answer `a`: such a request, the response to it, its status and its body.
  abbrev pub IsAnswer :
      Client W → Text → Text → (A : Type 0) → (Text → Result Text A) → W → A → W → Type 0
  IsAnswer c method path A decode w a v =
      (req : HttpRequest) × (resp : HttpResponse) × (raw : Text) × Carries c method path req
      × (transport.round_trip req w ≡ (ok resp, v))
      × (leb 400 resp.status ≡ false)
      × (resp.read max_error_body ≡ ok raw)
      × (decode raw ≡ ok a)

  abbrev made_request : Client W → Text → Text → Text → Option Text → W → HttpRequest
  made_request c method path accept body w = record {
    method = method;
    url = c.base ++ path;
    headers = request_headers c accept body w;
    body = body;
  }

  built-eq-ok :
      (c : Client W) (method path accept : Text) (body : Option Text) (w : W) (req : HttpRequest)
      → built transport decoders c method path accept body w ≡ ok req
      → made_request c method path accept body w ≡ req
  unfolding built
  built-eq-ok c method path accept body w req h =
      if_built-eq-ok (transport.build method (c.base ++ path))
        (made_request c method path accept body w) req h

  new_request-Carries :
      (c : Client W) (method path accept : Text) (body : Option (Result Text Text)) (w : W)
      (req : HttpRequest)
      → new_request transport decoders c method path accept body w ≡ ok req
      → Carries c method path req
  unfolding new_request
  new_request-Carries c method path accept body w req h = elim (Bool-cases (is_empty c.token)) [
    | inl blank ↦ absurd (ground (arith, h, blank))
    | inr some_token ↦
        let (b, e, h1) =
          >>=-eq-ok (encoded body) (λ b. built transport decoders c method path accept b w)
            (ground (arith, h, some_token)) in
        subst (Carries c method path) (built-eq-ok c method path accept b w req h1)
          (some_token, refl, refl, request_headers-authorization c accept b w)
  ]

  answer_of-eq-ok :
      {A : Type 0} (token method path : Text) (decode : Text → Result Text A) (resp : HttpResponse)
      (a : A)
      → answer_of decoders token method path decode resp ≡ ok a
      → (raw : Text) × (leb 400 resp.status ≡ false)
        × (resp.read max_error_body ≡ ok raw)
        × (decode raw ≡ ok a)
  unfolding answer_of
  answer_of-eq-ok token method path decode resp a h =
      let (read, e, h1) =
        >>=-eq-ok (read_body method path (resp.read max_error_body))
          (λ read. do
            raw ←
                check_status (status_error method path resp.status (reason decoders token read))
                  read
            decoded_as method path resp.status (decode raw))
          h in
      let (raw, f, h2) =
        >>=-eq-ok
          (check_status (status_error method path resp.status (reason decoders token read)) read)
          (λ raw. decoded_as method path resp.status (decode raw)) h1 in
      let (accepted, same) =
        check_status-eq-ok (status_error method path resp.status (reason decoders token read)) read
          raw f in
      (
        raw,
        status_error-none method path (reason decoders token read) resp.status accepted,
        read_body-eq-ok method path (resp.read max_error_body) raw (e ∙ ap ok same),
        decoded_as-eq-ok method path resp.status (decode raw) a h2,
      )

  response_of-eq-ok :
      {A : Type 0} (token method path : Text) (decode : Text → Result Text A)
      (got : Result Text HttpResponse) (a : A)
      → response_of decoders token method path decode got ≡ ok a
      → (resp : HttpResponse) × (got ≡ ok resp)
        × (answer_of decoders token method path decode resp ≡ ok a)
  unfolding response_of
  response_of-eq-ok token method path decode (ok resp) a h = (resp, refl, h)
  response_of-eq-ok token method path decode (err e) a h = cc

  exchanged-IsAnswer :
      {A : Type 0} (c : Client W) (method path : Text) (decode : Text → Result Text A) (w : W)
      (made : Result ClientError HttpRequest) (a : A) (v : W)
      → ((req : HttpRequest) → made ≡ ok req → Carries c method path req)
      → exchanged transport decoders c method path decode w made ≡ (ok a, v)
      → IsAnswer c method path A decode w a v
  unfolding exchanged
  exchanged-IsAnswer c method path decode w (err e) a v carries h =
      absurd (err≢ok (ap (λ x. x.0) h))
  exchanged-IsAnswer c method path decode w (ok req) a v carries h =
      let (resp, got, answered) =
        response_of-eq-ok c.token method path decode (transport.round_trip req w).0 a
          (ap (λ x. x.0) h) in
      let (raw, accepted, read, decoded) =
        answer_of-eq-ok c.token method path decode resp a answered in
      (req, resp, raw, carries req refl, ap2_pair got (ap (λ x. x.1) h), accepted, read, decoded)

  -- When `do` gives an answer, then the client has a token, a request with the method, the path below
  -- the base and the token as the bearer was sent, and nothing else was done to the world, the status
  -- of the response is below 400, its body, read up to `maxErrorBody` bytes, could be read, and the
  -- answer is what the body decodes to.
  pub exchange-IsAnswer :
      {A : Type 0} (c : Client W) (method path : Text) (body : Option (Result Text Text))
      (decode : Text → Result Text A) (w : W) (a : A) (v : W)
      → exchange transport decoders c method path body decode w ≡ (ok a, v)
      → IsAnswer c method path A decode w a v
  unfolding exchange
  exchange-IsAnswer c method path body decode w a v h =
      exchanged-IsAnswer c method path decode w
        (new_request transport decoders c method path (codes "application/json") body w) a v
        (new_request-Carries c method path (codes "application/json") body w) h
