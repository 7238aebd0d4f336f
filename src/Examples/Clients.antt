-- ===== src/Examples/Clients.antt =====
-- The client of the gateway against a gateway that answers one body with one status.
use leartech_go_common.Base.{◌≡◌, refl, ℕ, suc, false, none, some, [], Text, codes}
use leartech_go_common.Base.Int.{pos}
use leartech_go_common.Base.Results.{ok, err}
use leartech_go_common.Gateway.Client.{
  err_forbidden, wrapped, err_no_credential, bare, Decoders, Transport, Client, reason, new_client,
}
use leartech_go_common.Gateway.Calls.{version_of}
use leartech_go_common.Gateway.Client.Do.{exchange}
use leartech_go_common.Gateway.Client.Scrub.{occurs, IsToken, reason-no_token}
use leartech_go_common.Gateway.Client.Answer.{IsAnswer, exchange-IsAnswer}

-- The state counts the requests.
abbrev gateway : ℕ → Text → Transport ℕ
gateway status body = record {
  build = λ method url. none;
  round_trip = λ req w. (ok (record { status = status; read = λ n. ok body }), suc w);
}

-- A body is a flat error with its text.
abbrev flat_only : Decoders
flat_only = record {
  api_error = λ raw. some (record { error = raw; message = []; detail = [] });
  nested = λ raw. none;
  flat = λ raw. some raw;
}

abbrev client : Client ℕ
client = new_client (codes "https://gw/") (codes "sk-1")

forbidden :
    exchange
      (gateway 403 (codes "key sk-1 may not"))
      flat_only
      client
      (codes "GET")
      (codes "/x")
      none
      (λ raw. ok raw)
      0
    ≡ (err (wrapped err_forbidden (codes "GET /x said 403: key [redacted] may not")), 1)
unfolding exchange new_client codes
forbidden = refl

nothing_sent :
    exchange
      (gateway 200 (codes "ok"))
      flat_only
      (new_client (codes "https://gw") [])
      (codes "GET")
      (codes "/x")
      none
      (λ raw. ok raw)
      0
    ≡ (err (bare err_no_credential), 0)
unfolding exchange new_client codes
nothing_sent = refl

answered :
    exchange
      (gateway 200 (codes "yes"))
      flat_only
      client
      (codes "GET")
      (codes "/x")
      none
      (λ raw. ok raw)
      0
    ≡ (ok (codes "yes"), 1)
unfolding exchange new_client codes
answered = refl

exchange-IsAnswer_example :
    IsAnswer
      (gateway 200 (codes "yes"))
      flat_only
      client
      (codes "GET")
      (codes "/x")
      Text
      (λ raw. ok raw)
      0
      (codes "yes")
      1
exchange-IsAnswer_example =
    exchange-IsAnswer (gateway 200 (codes "yes")) flat_only client (codes "GET") (codes "/x") none
      (λ raw. ok raw) 0 (codes "yes") 1 answered

secret-IsToken : IsToken (codes "sk-1")
unfolding codes occurs
secret-IsToken = (
  refl,
  (refl, (refl, (refl, (refl, tt)))),
  (refl, (refl, (refl, (refl, tt)))),
  (refl, (refl, (refl, (refl, tt)))),
  refl,
  refl,
)

reason-no_token_example :
    occurs (codes "sk-1") (reason flat_only (codes "sk-1") (codes "key sk-1 may not")) ≡ false
reason-no_token_example =
    reason-no_token flat_only (codes "sk-1") (codes "key sk-1 may not") secret-IsToken

-- A gateway that has no version endpoint reports level 0, and no token is needed.
old_gateway :
    version_of (gateway 404 []) (new_client (codes "https://gw") []) (λ resp. err []) 0
    ≡ (ok (record { version = []; api_level = pos 0 }), 1)
unfolding version_of new_client codes
old_gateway = refl
