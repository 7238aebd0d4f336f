-- ===== src/Auth/Audience.antt =====
-- pkg/auth/audience_token.go: the token sources of a service client, one for each audience. `S` is a
-- token source of the OAuth2 library and `W` the state of everything outside: `token_source` makes a
-- source for endpoint parameters, and `token` asks a source for its token.
pub mod Cached
use leartech_go_common.Base.{Option, none, some, List, [], ◌∷◌, ◌++◌, Text, codes}
use leartech_go_common.Base.Results.{Result, ok, err}
use leartech_go_common.Auth.Token.{lookup}

-- `mint_failed` has the audience and the error's text.
pub data AudienceError : Type 0 where
  empty_audience no_request : AudienceError
  mint_failed : Text → Text → AudienceError

-- `audSources`, with everything outside.
pub record Sources (S W : Type 0) : Type 0 where
  pub sources : List (Text × S)
  pub world : W

-- `cfg.EndpointParams`
unfoldable pub endpoint_params : Text → List (Text × List Text)
unfolding codes
endpoint_params audience = (codes "audience", audience ∷ []) ∷ []

module _ {S W : Type 0} (token_source : List (Text × List Text) → W → S × W) where
  -- A source for an audience that has none.
  unfoldable pub new_source : Text → Sources S W → S × Sources S W
  unfolding endpoint_params
  new_source audience c =
      let (s, w) = token_source (endpoint_params audience) c.world in
      (s, record { sources = c.sources ++ (audience, s) ∷ []; world = w })

  unfoldable pub cached_or_new : Text → Sources S W → Option S → S × Sources S W
  unfolding new_source
  cached_or_new audience c none = new_source audience c
  cached_or_new audience c (some s) = (s, c)

  -- `tokenSourceFor`
  unfoldable pub token_source_for : Text → Sources S W → Result AudienceError S × Sources S W
  unfolding cached_or_new lookup
  token_source_for [] c = (err empty_audience, c)
  token_source_for (b ∷ audience) c =
      let (s, c') = cached_or_new (b ∷ audience) c (lookup (b ∷ audience) c.sources) in (ok s, c')

  module _ (token : S → W → Result Text Text × W) where
    unfoldable pub minted :
        Text → Sources S W → Result Text Text × W → Result AudienceError Text × Sources S W
    minted audience c (err e, w) = (err (mint_failed audience e), record c { world = w })
    minted audience c (ok t, w) = (ok t, record c { world = w })

    unfoldable pub mint_from :
        Text → Result AudienceError S × Sources S W → Result AudienceError Text × Sources S W
    unfolding minted
    mint_from audience (err e, c) = (err e, c)
    mint_from audience (ok s, c) = minted audience c (token s c.world)

    unfoldable pub get_auth_token_for_audience :
        Text → Sources S W → Result AudienceError Text × Sources S W
    unfolding mint_from token_source_for
    get_auth_token_for_audience audience c = mint_from audience (token_source_for audience c)

    -- Requests for tokens, one after the other.
    abbrev pub requests : List Text → Sources S W → Sources S W
    requests [] c = c
    requests (a ∷ more) c = requests more (get_auth_token_for_audience a c).1
