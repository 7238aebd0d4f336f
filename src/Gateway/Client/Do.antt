-- ===== src/Gateway/Client/Do.antt =====
-- pkg/aigateway/client.go: one exchange with the gateway, `do`. The decoder of an answer is an
-- argument, with its error as a text.
use leartech_go_common.Base.{ℕ, Option, none, some, ◌++◌, Text, codes, decimal}
use leartech_go_common.Base.Results.{Result, ok, err, ◌>>=◌}
use leartech_go_common.Gateway.Client.{
  ClientError, plain, HttpRequest, HttpResponse, Decoders, Transport, Client, scrub, reason,
  status_error, new_request, max_error_body,
}

unfoldable pub send_failed : Text → Text → Text → Text → ClientError
unfolding scrub codes
send_failed token method path e =
    plain (codes "gateway: " ++ (method ++ (codes " " ++ (path ++ (codes ": " ++ scrub token e)))))

unfoldable pub read_body : Text → Text → Result Text Text → Result ClientError Text
unfolding codes
read_body method path (ok raw) = ok raw
read_body method path (err e) =
    err (plain (codes "gateway: read " ++ (method ++ (codes " " ++ (path ++ (codes ": " ++ e))))))

unfoldable pub check_status : Option ClientError → Text → Result ClientError Text
check_status none raw = ok raw
check_status (some e) raw = err e

unfoldable pub decoded_as {ℓ} :
    {A : Type ℓ} → Text → Text → ℕ → Result Text A → Result ClientError A
unfolding codes decimal
decoded_as method path status (ok a) = ok a
decoded_as method path status (err e) = err (
    plain (
      codes "gateway: "
      ++ (method
          ++ (codes " "
              ++ (path
                  ++ (codes " returned "
                      ++ (decimal status
                          ++ (codes " with a body that is not the expected JSON: " ++ e))))))))

-- What `do` makes of a response.
unfoldable pub answer_of {ℓ} :
    {A : Type ℓ}
    → Decoders
    → Text
    → Text
    → Text
    → (Text → Result Text A)
    → HttpResponse
    → Result ClientError A
unfolding read_body check_status status_error reason decoded_as
answer_of d token method path decode resp = do
  read ← read_body method path (resp.read max_error_body)
  raw ← check_status (status_error method path resp.status (reason d token read)) read
  decoded_as method path resp.status (decode raw)

unfoldable pub response_of {ℓ} :
    {A : Type ℓ}
    → Decoders
    → Text
    → Text
    → Text
    → (Text → Result Text A)
    → Result Text HttpResponse
    → Result ClientError A
unfolding send_failed answer_of
response_of d token method path decode (err e) = err (send_failed token method path e)
response_of d token method path decode (ok resp) = answer_of d token method path decode resp

module _ {W : Type 0} (transport : Transport W) (decoders : Decoders) where
  unfoldable pub exchanged {ℓ} :
      {A : Type ℓ}
      → Client W
      → Text
      → Text
      → (Text → Result Text A)
      → W
      → Result ClientError HttpRequest
      → Result ClientError A × W
  unfolding response_of
  exchanged c method path decode w (err e) = (err e, w)
  exchanged c method path decode w (ok req) =
      let (got, v) = transport.round_trip req w in
      (response_of decoders c.token method path decode got, v)

  -- `do`
  unfoldable pub exchange {ℓ} :
      {A : Type ℓ}
      → Client W
      → Text
      → Text
      → Option (Result Text Text)
      → (Text → Result Text A)
      → W
      → Result ClientError A × W
  unfolding exchanged new_request codes
  exchange c method path body decode w =
      exchanged c method path decode w
        (new_request transport decoders c method path (codes "application/json") body w)
