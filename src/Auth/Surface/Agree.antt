-- ===== src/Auth/Surface/Agree.antt =====
-- What the verifier reports as gated is what the routes enforce, and an empty surface means that the
-- three lists name the same scopes.
use leartech_go_common.Base.{
  ◌≡◌, refl, sym, ap, ◌∙◌, Bool, true, false, not, ◌&&◌, ◌||◌, inl, inr, List, [], ◌∷◌, Text,
  text_eq, text_eq_iff, contains, is_empty, select, Bool-cases, arith, some,
}
use leartech_go_common.Base.Results.{Result, ok, >>=-eq-ok}
use leartech_go_common.Auth.Gate.{Verifier, Panic, require_scope, mark_gated}
use leartech_go_common.Auth.Surface.{gated_scopes, scope_surface, is_surface_empty, wire}

text_eq_sound : (s t : Text) → text_eq s t ≡ true → s ≡ t
text_eq_sound s t h = ground (arith, text_eq_iff s t)

-- Filtering by a test keeps what passes it.
contains-select :
    (p : Text → Bool) (ss : List Text) (t : Text)
    → contains (select p ss) t ≡ (contains ss t && p t)
unfolding contains
contains-select p [] t = refl
contains-select p (s ∷ ss) t = elim (Bool-cases (p s)) [
  | inl pass ↦ elim (Bool-cases (text_eq s t)) [
    | inl same ↦ rw (pass, same, sym (ap p (text_eq_sound s t same)), pass) refl
    | inr other ↦ rw (pass, other) (contains-select p ss t)
  ]
  | inr fail ↦ elim (Bool-cases (text_eq s t)) [
    | inl same ↦
        rw (fail, same, contains-select p ss t, sym (ap p (text_eq_sound s t same)), fail)
          (ground arith)
    | inr other ↦ rw (fail, other) (contains-select p ss t)
  ]
]

is_empty-no-member : (ss : List Text) (t : Text) → is_empty ss ≡ true → contains ss t ≡ false
unfolding contains
is_empty-no-member [] t h = refl
is_empty-no-member (s ∷ ss) t h = cc

-- Nothing is left of a list whose elements all lie in another.
select-empty :
    (p : Text → Bool) (ss : List Text) (t : Text)
    → is_empty (select (λ s. not (p s)) ss) ≡ true
    → contains ss t ≡ true
    → p t ≡ true
select-empty p ss t none_left member = grind (
  arith,
  contains-select (λ s. not (p s)) ss t,
  is_empty-no-member (select (λ s. not (p s)) ss) t none_left,
)

mark_gated-contains :
    (s t : Text) (v : Verifier)
    → contains (mark_gated s v).gated t ≡ (text_eq s t || contains v.gated t)
unfolding mark_gated contains
mark_gated-contains s t v = elim (Bool-cases (contains v.gated s)) [
  | inl there ↦ elim (Bool-cases (text_eq s t)) [
    | inl same ↦ rw (there, same, sym (ap (contains v.gated) (text_eq_sound s t same))) there
    | inr other ↦ rw (there, other) refl
  ]
  | inr fresh ↦ elim (Bool-cases (text_eq s t)) [
    | inl same ↦ rw (fresh, same) refl
    | inr other ↦ rw (fresh, other) refl
  ]
]

gated_scopes-contains :
    (v : Verifier) (s : Text)
    → contains (gated_scopes v) s ≡ (contains v.known_scopes s && contains v.gated s)
unfolding gated_scopes
gated_scopes-contains v s = contains-select (contains v.gated) v.known_scopes s

-- A route that is wired has a scope that the verifier knows, and the scope is marked.
require_scope-wired :
    (route : Text) (v w : Verifier)
    → require_scope (some v) route ≡ ok w
    → (contains v.known_scopes route ≡ true) × (mark_gated route v ≡ w)
unfolding require_scope
require_scope-wired route v w h = elim (Bool-cases (is_empty route)) [
  | inl blank ↦ ground arith
  | inr filled ↦ elim (Bool-cases (contains v.known_scopes route)) [
    | inl known ↦ ground arith
    | inr unknown ↦ ground arith
  ]
]

ok_inj : {v w : Verifier} → Path (Result Panic Verifier) (ok v) (ok w) → v ≡ w
ok_inj h = cc

contains-cons : (s t : Text) (ss : List Text) → contains (s ∷ ss) t ≡ (text_eq s t || contains ss t)
unfolding contains
contains-cons s t ss = elim (Bool-cases (text_eq s t)) [
  | inl same ↦ rw same refl
  | inr other ↦ rw other refl
]

wire-known :
    (routes : List Text) (v w : Verifier)
    → wire routes v ≡ ok w
    → (w.known_scopes ≡ v.known_scopes) × (w.scopes_supported ≡ v.scopes_supported)
unfolding wire mark_gated
wire-known [] v w h = (
  sym (ap (λ (x : Verifier). x.known_scopes) (ok_inj h)),
  sym (ap (λ (x : Verifier). x.scopes_supported) (ok_inj h)),
)
wire-known (route ∷ routes) v w h =
    let (u, first, rest) = >>=-eq-ok (require_scope (some v) route) (wire routes) h in
    let (known, marked) = require_scope-wired route v u first in
    let (k, p) = wire-known routes u w rest in
    (
      k ∙ sym (ap (λ (x : Verifier). x.known_scopes) marked),
      p ∙ sym (ap (λ (x : Verifier). x.scopes_supported) marked),
    )

wire-marks :
    (routes : List Text) (v w : Verifier) (s : Text)
    → wire routes v ≡ ok w
    → contains w.gated s ≡ (contains routes s || contains v.gated s)
unfolding wire contains
wire-marks [] v w s h = sym (ap (λ (x : Verifier). contains x.gated s) (ok_inj h))
wire-marks (route ∷ routes) v w s h =
    let (u, first, rest) = >>=-eq-ok (require_scope (some v) route) (wire routes) h in
    let (known, marked) = require_scope-wired route v u first in
    let here = ap (λ (x : Verifier). contains x.gated s) marked in
    ground (
      arith,
      here,
      mark_gated-contains route s v,
      wire-marks routes u w s rest,
      contains-cons route s routes,
    )

wire-declares :
    (routes : List Text) (v w : Verifier) (s : Text)
    → wire routes v ≡ ok w
    → contains routes s ≡ true
    → contains v.known_scopes s ≡ true
unfolding wire mark_gated contains
wire-declares [] v w s h member = cc
wire-declares (route ∷ routes) v w s h member =
    let (u, first, rest) = >>=-eq-ok (require_scope (some v) route) (wire routes) h in
    let (known, marked) = require_scope-wired route v u first in
    elim (Bool-cases (text_eq route s)) [
      | inl same ↦ ground (arith, known, ap (contains v.known_scopes) (text_eq_sound route s same))
      | inr other ↦ ground (
        arith,
        other,
        ap (λ (x : Verifier). contains x.known_scopes s) marked,
        wire-declares routes u w s rest,
        contains-cons route s routes,
      )
    ]

-- Once the routes of a fresh verifier are wired without a panic, the scopes it reports as gated
-- are those that some route requires.
pub wire-gated_scopes :
    (routes : List Text) (v w : Verifier) (s : Text)
    → v.gated ≡ []
    → wire routes v ≡ ok w
    → contains (gated_scopes w) s ≡ contains routes s
unfolding contains
wire-gated_scopes routes v w s fresh h =
    let (k, p) = wire-known routes v w h in
    elim (Bool-cases (contains routes s)) [
      | inl member ↦
          rw
            (
              gated_scopes-contains w s,
              wire-marks routes v w s h,
              k,
              wire-declares routes v w s h member,
              member,
            )
            refl
      | inr away ↦
          rw (gated_scopes-contains w s, wire-marks routes v w s h, away, fresh) (ground arith)
    ]

is_surface_empty-sets :
    (w : Verifier) (s : Text)
    → is_surface_empty (scope_surface w) ≡ true
    → (contains w.known_scopes s ≡ contains (gated_scopes w) s)
      × (contains w.scopes_supported s ≡ contains (gated_scopes w) s)
unfolding is_surface_empty scope_surface
is_surface_empty-sets w s agrees =
    let declared = select-empty (contains w.gated) w.known_scopes s (ground (arith, agrees)) in
    let published =
      select-empty (contains (gated_scopes w)) w.scopes_supported s (ground (arith, agrees)) in
    let gated =
      select-empty (contains w.scopes_supported) (gated_scopes w) s (ground (arith, agrees)) in
    (ground (arith, declared, gated_scopes-contains w s), ground (arith, published, gated))

-- When the surface is empty after the routes of a fresh verifier are wired, then the declared scopes,
-- the required ones and the published ones are the same.
pub surface_agrees :
    (routes : List Text) (v w : Verifier) (s : Text)
    → v.gated ≡ []
    → wire routes v ≡ ok w
    → is_surface_empty (scope_surface w) ≡ true
    → (contains v.known_scopes s ≡ contains routes s)
      × (contains v.scopes_supported s ≡ contains routes s)
surface_agrees routes v w s fresh h agrees =
    let (k, p) = wire-known routes v w h in
    let (declared, published) = is_surface_empty-sets w s agrees in
    let enforced = wire-gated_scopes routes v w s fresh h in
    (
      ap (λ ss. contains ss s) (sym k) ∙ declared ∙ enforced,
      ap (λ ss. contains ss s) (sym p) ∙ published ∙ enforced,
    )
