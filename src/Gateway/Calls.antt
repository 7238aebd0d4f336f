-- ===== src/Gateway/Calls.antt =====
-- pkg/aigateway: the calls outside api.go (version.go, handover.go, tools.go, websearch.go,
-- webfetch.go). The JSON of a request and of an answer is an argument.
use leartech_go_common.Base.{
  not, Option, none, some, List, [], ◌++◌, Text, codes, decimal, if◌then◌else◌, ◌==◌,
}
use leartech_go_common.Base.Int.{ℤ, pos}
use leartech_go_common.Base.Results.{Result, ok, err}
use leartech_go_common.Gateway.Client.{
  ClientError, HttpRequest, HttpResponse, Decoders, Transport, Client,
}
use leartech_go_common.Gateway.Client.Do.{exchange}

pub record VersionResponse : Type 0 where
  pub version : Text
  pub api_level : ℤ

-- `json.NewDecoder` on the body, with its error.
unfoldable pub version_decoded : Result Text VersionResponse → Result Text VersionResponse
unfolding codes
version_decoded (ok v) = ok v
version_decoded (err e) =
    err
      (codes "gateway: GET /version returned 200 with a body that is not the expected JSON: " ++ e)

abbrev no_version : VersionResponse
no_version = record { version = []; api_level = pos 0 }

-- What `Version` makes of a response. `decode` reads its body.
unfoldable pub version_answer :
    (HttpResponse → Result Text VersionResponse) → HttpResponse → Result Text VersionResponse
unfolding version_decoded codes decimal
version_answer decode resp =
    if resp.status == 404
    then ok no_version
    else if not (resp.status == 200)
    then err (codes "gateway: GET /version returned " ++ decimal resp.status)
    else version_decoded (decode resp)

unfoldable pub version_received :
    (HttpResponse → Result Text VersionResponse)
    → Result Text HttpResponse
    → Result Text VersionResponse
unfolding version_answer
version_received decode (ok resp) = version_answer decode resp
version_received decode (err e) = err e

module _ {W : Type 0} (transport : Transport W) where
  unfoldable pub version_sent :
      (HttpResponse → Result Text VersionResponse)
      → HttpRequest
      → Option Text
      → W
      → Result Text VersionResponse × W
  unfolding version_received
  version_sent decode req (some e) w = (err e, w)
  version_sent decode req none w =
      let (got, v) = transport.round_trip req w in (version_received decode got, v)

  -- `Version`: neither the token nor a header goes with this request.
  unfoldable pub version_of :
      Client W → (HttpResponse → Result Text VersionResponse) → W → Result Text VersionResponse × W
  unfolding version_sent codes
  version_of c decode w =
      version_sent decode
        (record {
          method = codes "GET";
          url = c.base ++ codes "/version";
          headers = [];
          body = none;
        })
        (transport.build (codes "GET") (c.base ++ codes "/version")) w

module _ {W : Type 0} (transport : Transport W) (decoders : Decoders) (c : Client W) where
  unfoldable pub session_handover {ℓ} :
      {A : Type ℓ} → Result Text Text → (Text → Result Text A) → W → Result ClientError A × W
  unfolding exchange codes
  session_handover req decode w =
      exchange transport decoders c (codes "POST") (codes "/v1/sessions/handover") (some req) decode
        w

  unfoldable pub tools_of {ℓ} :
      {A : Type ℓ} → (Text → Result Text (List A)) → W → Result ClientError (List A) × W
  unfolding exchange codes
  tools_of decode w = exchange transport decoders c (codes "GET") (codes "/v1/tools") none decode w

  unfoldable pub web_search {ℓ} :
      {A : Type ℓ} → Result Text Text → (Text → Result Text A) → W → Result ClientError A × W
  unfolding exchange codes
  web_search req decode w =
      exchange transport decoders c (codes "POST") (codes "/v1/search") (some req) decode w

  -- The providers and the id of the default one.
  unfoldable pub web_search_discover {ℓ} :
      {A : Type ℓ}
      → (Text → Result Text (List A × Text))
      → W
      → Result ClientError (List A × Text) × W
  unfolding exchange codes
  web_search_discover decode w =
      exchange transport decoders c (codes "GET") (codes "/v1/websearch") none decode w

  unfoldable pub fetch {ℓ} :
      {A : Type ℓ} → Result Text Text → (Text → Result Text A) → W → Result ClientError A × W
  unfolding exchange codes
  fetch req decode w =
      exchange transport decoders c (codes "POST") (codes "/v1/fetch") (some req) decode w
