-- ===== src/Auth/Scopes/AnyOf.antt =====
-- One shared element is what the two list tests ask for.
use leartech_go_common.Base.{
  ◌≡◌, refl, ◌↔◌, ◌⊎◌, inl, inr, true, false, List, [], ◌∷◌, Text, text_eq, text_eq_iff, contains,
  is_empty, Bool-cases, arith, text_eq_refl, ap,
}
use leartech_go_common.Auth.Scopes.{shares, is_scoped, is_permitted}

-- Some text is in both lists.
abbrev pub Common : List Text → List Text → Type 0
Common ss required = (s : Text) × (contains ss s ≡ true) × (contains required s ≡ true)

text_eq_sound : (s t : Text) → text_eq s t ≡ true → s ≡ t
text_eq_sound s t h = ground (arith, text_eq_iff s t)

shares-Common : (ss required : List Text) → shares ss required ≡ true → Common ss required
unfolding shares contains
shares-Common [] required h = cc
shares-Common (s ∷ ss) required h = elim (Bool-cases (contains required s)) [
  | inl here ↦ (s, rw (text_eq_refl s) refl, here)
  | inr away ↦
      let (u, mine, theirs) = shares-Common ss required (ground (arith, away)) in
      (u, ground (arith, mine), theirs)
]

Common-shares :
    (ss required : List Text) (s : Text)
    → contains ss s ≡ true
    → contains required s ≡ true
    → shares ss required ≡ true
unfolding shares contains
Common-shares [] required s h k = cc
Common-shares (t ∷ ss) required s h k = elim (Bool-cases (contains required t)) [
  | inl here ↦ rw here refl
  | inr away ↦ elim (Bool-cases (text_eq t s)) [
    | inl same ↦ ground (arith, away, k, ap (contains required) (text_eq_sound t s same))
    | inr other ↦ rw away (Common-shares ss required s (ground (arith, other)) k)
  ]
]

Common-or :
    (ss required : List Text)
    → is_empty required ≡ false
    → (is_empty required ≡ true) ⊎ Common ss required
    → shares ss required ≡ true
Common-or ss required filled (inl blank) = cc
Common-or ss required filled (inr (u, mine, theirs)) = Common-shares ss required u mine theirs

-- `is_scoped` holds just if the token has a scope and, unless nothing is required, has one of the
-- required scopes.
pub is_scoped_iff :
    (ss required : List Text)
    → (is_scoped ss required ≡ true)
      ↔ ((is_empty ss ≡ false) × ((is_empty required ≡ true) ⊎ Common ss required))
unfolding is_scoped
is_scoped_iff [] required = (λ e. cc, λ (e, c). cc)
is_scoped_iff (s ∷ ss) [] = (λ e. (refl, inl refl), λ c. refl)
is_scoped_iff (s ∷ ss) (r ∷ required) = (
  λ e. (refl, inr (shares-Common (s ∷ ss) (r ∷ required) e)),
  λ (e, c). Common-or (s ∷ ss) (r ∷ required) refl c,
)

-- `is_permitted` holds just if nothing is required or the token has one of the required permissions.
pub is_permitted_iff :
    (permissions required : List Text)
    → (is_permitted permissions required ≡ true)
      ↔ ((is_empty required ≡ true) ⊎ Common permissions required)
unfolding is_permitted
is_permitted_iff permissions [] = (λ e. inl refl, λ c. refl)
is_permitted_iff [] (r ∷ required) =
    (λ e. cc, λ c. elim c [ inl e ↦ cc | inr (u, mine, theirs) ↦ cc ])
is_permitted_iff (p ∷ permissions) (r ∷ required) = (
  λ e. inr (shares-Common (p ∷ permissions) (r ∷ required) e),
  λ c. Common-or (p ∷ permissions) (r ∷ required) refl c,
)
