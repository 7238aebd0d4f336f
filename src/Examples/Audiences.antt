-- ===== src/Examples/Audiences.antt =====
-- pkg/auth/audience_token.go with sources that are their own parameters and a counter.
use leartech_go_common.Base.{ℕ, suc, List, [], ◌∷◌, codes, Text}
use leartech_go_common.Base.Results.{Result, ok}
use leartech_go_common.Auth.Audience.{token_source_for, requests}
use leartech_go_common.Auth.Audience.Cached.{Served, token_source_for-Served}

abbrev toy_source : List (Text × List Text) → ℕ → (List (Text × List Text) × ℕ) × ℕ
toy_source params w = ((params, w), suc w)

abbrev toy_token : List (Text × List Text) × ℕ → ℕ → Result Text Text × ℕ
toy_token s w = (ok (codes "t"), w)

abbrev before : List Text
before = codes "billing" ∷ [] ∷ codes "search" ∷ codes "billing" ∷ []

abbrev after : List Text
after = codes "billing" ∷ codes "mail" ∷ codes "search" ∷ []

token_source_for-Served_example : Served toy_source toy_token (codes "search") after (
    token_source_for toy_source
      (codes "search")
      (requests toy_source toy_token before (record { sources = []; world = 0 })))
token_source_for-Served_example =
    token_source_for-Served toy_source toy_token before after 0 (codes "search")
