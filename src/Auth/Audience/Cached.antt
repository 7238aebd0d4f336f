-- ===== src/Auth/Audience/Cached.antt =====
-- Which source an audience gets.
use leartech_go_common.Base.{
  ◌≡◌, ◌≢◌, codes, refl, sym, ap, ◌∙◌, arith, Option, none, some, List, [], ◌∷◌, ◌++◌, Text,
  text_eq, text_eq_iff, text_eq_refl, Bool-cases, inl, inr, All, All-append,
}
use leartech_go_common.Base.Results.{Result, ok, err}
use leartech_go_common.Auth.Token.{lookup}
use leartech_go_common.Auth.Audience.{
  AudienceError, empty_audience, Sources, endpoint_params, new_source, cached_or_new,
  token_source_for, minted, mint_from, get_auth_token_for_audience, requests,
}

lookup-snoc :
    {A : Type 0} (key : Text) (m : List (Text × A)) (a : A)
    → lookup key m ≡ none
    → lookup key (m ++ (key, a) ∷ []) ≡ some a
unfolding lookup
lookup-snoc key [] a h = rw (text_eq_refl key) refl
lookup-snoc key ((k, b) ∷ m) a h = elim (Bool-cases (text_eq k key)) [
  | inl same ↦ absurd (ground (arith, same))
  | inr other ↦ rw other (lookup-snoc key m a (ground (arith, other)))
]

lookup-append :
    {A : Type 0} (key : Text) (m n : List (Text × A)) (a : A)
    → lookup key m ≡ some a
    → lookup key (m ++ n) ≡ some a
unfolding lookup
lookup-append key [] n a h = cc
lookup-append key ((k, b) ∷ m) n a h = elim (Bool-cases (text_eq k key)) [
  | inl same ↦ rw same (ground (arith, h, same))
  | inr other ↦ rw other (lookup-append key m n a (ground (arith, h, other)))
]

module _ {S W : Type 0} (token_source : List (Text × List Text) → W → S × W) where
  -- A source that was made, at some time, with the one endpoint parameter `audience`, the audience
  -- itself.
  abbrev pub IsFor : Text → S → Type 0
  IsFor audience s = (w : W) × (s ≡ (token_source ((codes "audience", audience ∷ []) ∷ []) w).0)

  abbrev pub IsPaired : Text × S → Type 0
  IsPaired p = IsFor p.0 p.1

  lookup-IsFor :
      (key : Text) (m : List (Text × S)) (s : S)
      → All IsPaired m
      → lookup key m ≡ some s
      → IsFor key s
  unfolding lookup
  lookup-IsFor key [] s h e = cc
  lookup-IsFor key ((k, b) ∷ m) s ((w, made), h) e = elim (Bool-cases (text_eq k key)) [
    | inl same ↦
        let key_same : k ≡ key = (text_eq_iff k key).0 same in
        let value_same : b ≡ s = ground (arith, same) in
        (
          w,
          sym value_same
              ∙ made
              ∙ ap (λ x. (token_source ((codes "audience", x ∷ []) ∷ []) w).0) key_same,
        )
    | inr other ↦ lookup-IsFor key m s h (ground (arith, other))
  ]

  cached_or_new-IsFor :
      (audience : Text) (c : Sources S W) (o : Option S)
      → All IsPaired c.sources
      → lookup audience c.sources ≡ o
      → IsFor audience (cached_or_new token_source audience c o).0
        × All IsPaired (cached_or_new token_source audience c o).1.sources
  unfolding cached_or_new new_source endpoint_params
  cached_or_new-IsFor audience c none h e =
      ((c.world, refl), All-append IsPaired c.sources _ h ((c.world, refl), tt))
  cached_or_new-IsFor audience c (some s) h e = (lookup-IsFor audience c.sources s h e, h)

  cached_or_new-lookup :
      (audience : Text) (c : Sources S W) (o : Option S)
      → lookup audience c.sources ≡ o
      → lookup audience (cached_or_new token_source audience c o).1.sources
        ≡ some (cached_or_new token_source audience c o).0
  unfolding cached_or_new new_source
  cached_or_new-lookup audience c none e = lookup-snoc audience c.sources _ e
  cached_or_new-lookup audience c (some s) e = e

  -- A source for the audience, and only sources for their own audiences kept.
  abbrev Kept : Text → Result AudienceError S × Sources S W → Type 0
  Kept audience (ok s, c) = IsFor audience s × All IsPaired c.sources
  Kept audience (err e, c) = All IsPaired c.sources

  token_source_for-Kept :
      (audience : Text) (c : Sources S W)
      → All IsPaired c.sources
      → Kept audience (token_source_for token_source audience c)
  unfolding token_source_for
  token_source_for-Kept [] c h = h
  token_source_for-Kept (b ∷ audience) c h =
      cached_or_new-IsFor (b ∷ audience) c (lookup (b ∷ audience) c.sources) h refl

  minted-IsPaired :
      (token : S → W → Result Text Text × W) (audience : Text) (c : Sources S W)
      (r : Result Text Text × W)
      → All IsPaired c.sources
      → All IsPaired (minted token_source token audience c r).1.sources
  unfolding minted
  minted-IsPaired token audience c (err e, w) h = h
  minted-IsPaired token audience c (ok t, w) h = h

  mint_from-IsPaired :
      (token : S → W → Result Text Text × W) (audience : Text)
      (r : Result AudienceError S × Sources S W)
      → Kept audience r
      → All IsPaired (mint_from token_source token audience r).1.sources
  unfolding mint_from
  mint_from-IsPaired token audience (err e, c) h = h
  mint_from-IsPaired token audience (ok s, c) (made, h) =
      minted-IsPaired token audience c (token s c.world) h

  requests-IsPaired :
      (token : S → W → Result Text Text × W) (history : List Text) (c : Sources S W)
      → All IsPaired c.sources
      → All IsPaired (requests token_source token history c).sources
  unfolding get_auth_token_for_audience
  requests-IsPaired token [] c h = h
  requests-IsPaired token (a ∷ history) c h =
      requests-IsPaired token history (get_auth_token_for_audience token_source token a c).1 (
        mint_from-IsPaired token a (token_source_for token_source a c)
          (token_source_for-Kept a c h))

  -- What the cache holds for an audience stays.
  abbrev Keeps : Text → S → Sources S W → Type 0
  Keeps audience s c = lookup audience c.sources ≡ some s

  cached_or_new-Keeps :
      (audience other : Text) (s : S) (c : Sources S W) (o : Option S)
      → Keeps audience s c
      → Keeps audience s (cached_or_new token_source other c o).1
  unfolding cached_or_new new_source
  cached_or_new-Keeps audience other s c none h = lookup-append audience c.sources _ s h
  cached_or_new-Keeps audience other s c (some t) h = h

  token_source_for-Keeps :
      (audience other : Text) (s : S) (c : Sources S W)
      → Keeps audience s c
      → Keeps audience s (token_source_for token_source other c).1
  unfolding token_source_for
  token_source_for-Keeps audience [] s c h = h
  token_source_for-Keeps audience (b ∷ other) s c h =
      cached_or_new-Keeps audience (b ∷ other) s c (lookup (b ∷ other) c.sources) h

  minted-Keeps :
      (token : S → W → Result Text Text × W) (audience other : Text) (s : S) (c : Sources S W)
      (r : Result Text Text × W)
      → Keeps audience s c
      → Keeps audience s (minted token_source token other c r).1
  unfolding minted
  minted-Keeps token audience other s c (err e, w) h = h
  minted-Keeps token audience other s c (ok t, w) h = h

  mint_from-Keeps :
      (token : S → W → Result Text Text × W) (audience other : Text) (s : S)
      (r : Result AudienceError S × Sources S W)
      → Keeps audience s r.1
      → Keeps audience s (mint_from token_source token other r).1
  unfolding mint_from
  mint_from-Keeps token audience other s (err e, c) h = h
  mint_from-Keeps token audience other s (ok t, c) h =
      minted-Keeps token audience other s c (token t c.world) h

  requests-Keeps :
      (token : S → W → Result Text Text × W) (audience : Text) (s : S) (later : List Text)
      (c : Sources S W)
      → Keeps audience s c
      → Keeps audience s (requests token_source token later c)
  unfolding get_auth_token_for_audience
  requests-Keeps token audience s [] c h = h
  requests-Keeps token audience s (a ∷ later) c h =
      requests-Keeps token audience s later (get_auth_token_for_audience token_source token a c).1 (
        mint_from-Keeps token audience a s (token_source_for token_source a c)
          (token_source_for-Keeps audience a s c h))

  -- The source is in the cache.
  abbrev Stored : Text → Result AudienceError S × Sources S W → Type 0
  Stored audience (ok s, c) = (audience ≢ []) × Keeps audience s c
  Stored audience (err e, c) = Unit

  token_source_for-Stored :
      (audience : Text) (c : Sources S W)
      → Stored audience (token_source_for token_source audience c)
  unfolding token_source_for
  token_source_for-Stored [] c = tt
  token_source_for-Stored (b ∷ audience) c =
      ((λ e. cc), cached_or_new-lookup (b ∷ audience) c (lookup (b ∷ audience) c.sources) refl)

  token_source_for-kept :
      (audience : Text) (s : S) (c : Sources S W)
      → audience ≢ []
      → Keeps audience s c
      → token_source_for token_source audience c ≡ (ok s, c)
  unfolding token_source_for cached_or_new
  token_source_for-kept [] s c some_audience h = absurd (some_audience refl)
  token_source_for-kept (b ∷ audience) s c some_audience h = rw h refl

  abbrev Refused : Text → Result AudienceError S × Sources S W → Type 0
  Refused audience (ok s, c) = Unit
  Refused audience (err e, c) = (audience ≡ []) × (e ≡ empty_audience)

  token_source_for-Refused :
      (audience : Text) (c : Sources S W)
      → Refused audience (token_source_for token_source audience c)
  unfolding token_source_for
  token_source_for-Refused [] c = (refl, refl)
  token_source_for-Refused (b ∷ audience) c = tt

  -- A source made for the audience, and the same one after any later requests, which then changes
  -- nothing, or a refusal of the empty audience.
  abbrev pub Served :
      (S → W → Result Text Text × W)
      → Text
      → List Text
      → Result AudienceError S × Sources S W
      → Type 0
  Served token audience later (ok s, c) =
      IsFor audience s
      × (token_source_for token_source audience (requests token_source token later c)
          ≡ (ok s, requests token_source token later c))
  Served token audience later (err e, c) = (audience ≡ []) × (e ≡ empty_audience)

  Served-join :
      (token : S → W → Result Text Text × W) (audience : Text) (later : List Text)
      (r : Result AudienceError S × Sources S W)
      → Kept audience r
      → Stored audience r
      → Refused audience r
      → Served token audience later r
  Served-join token audience later (ok s, c) (made, h) (some_audience, stored) refused = (
    made,
    token_source_for-kept audience s (requests token_source token later c) some_audience
        (requests-Keeps token audience s later c stored),
  )
  Served-join token audience later (err e, c) h stored refused = refused

  -- Whatever tokens a client has asked for before, and whether or not they were minted, an audience
  -- gets a source that was made with that audience and no other as its one endpoint parameter
  -- `audience`. Whatever tokens it asks for after that, for this and for other audiences, the audience
  -- then gets the same source, and neither the sources kept nor anything outside changes by it. Only
  -- the empty audience is refused.
  pub token_source_for-Served :
      (token : S → W → Result Text Text × W) (history later : List Text) (w : W) (audience : Text)
      → Served token audience later (
          token_source_for token_source audience
            (requests token_source token history (record { sources = []; world = w })))
  token_source_for-Served token history later w audience =
      let c : Sources S W =
        requests token_source token history (record { sources = []; world = w }) in
      Served-join token audience later (token_source_for token_source audience c)
        (token_source_for-Kept audience c
          (requests-IsPaired token history (record { sources = []; world = w }) tt))
        (token_source_for-Stored audience c) (token_source_for-Refused audience c)
