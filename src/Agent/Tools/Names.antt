-- ===== src/Agent/Tools/Names.antt =====
-- The names of the registry: each once, and none shadowed by a later tool.
use leartech_go_common.Base.{
  false, ◌≡◌, ◌≢◌, refl, sym, ap, Option, none, some, List, [], ◌∷◌, ◌++◌, Text, arith, text_eq_iff,
  All, All-append, is_empty, Bool-cases, text_eq_refl, ◌⊎◌, inl, inr,
}
use leartech_go_common.Agent.Tools.{
  Tool, Registry, new_registry, find, add, add_new, names, duplicate_tool,
}

-- No text stands twice in the list.
abbrev pub Distinct : List Text → Type 0
Distinct [] = Unit
Distinct (x ∷ xs) = All (λ y. y ≢ x) xs × Distinct xs

Distinct-snoc :
    (xs : List Text) (x : Text) → Distinct xs → All (λ y. y ≢ x) xs → Distinct (xs ++ x ∷ [])
Distinct-snoc [] x d f = (tt, tt)
Distinct-snoc (y ∷ xs) x (f', d) (ne, f) =
    (All-append (λ z. z ≢ y) xs (x ∷ []) f' ((λ e. ne (sym e)), tt), Distinct-snoc xs x d f)

module _ {W : Type 0} where
  abbrev pub keys : List (Text × Tool W) → List Text
  keys [] = []
  keys ((n, t) ∷ ts) = n ∷ keys ts

  keys-append : (xs ys : List (Text × Tool W)) → keys (xs ++ ys) ≡ keys xs ++ keys ys
  keys-append [] ys = refl
  keys-append ((n, t) ∷ xs) ys = ap (λ r. n ∷ r) (keys-append xs ys)

  find-none-fresh :
      (n : Text) (ts : List (Text × Tool W)) → find n ts ≡ none → All (λ y. y ≢ n) (keys ts)
  unfolding find
  find-none-fresh n [] h = tt
  find-none-fresh n ((m, t) ∷ ts) h =
      (ground (arith, text_eq_iff m n), find-none-fresh n ts (ground (arith, text_eq_iff m n)))

  find-append :
      (n : Text) (ts us : List (Text × Tool W)) (t : Tool W)
      → find n ts ≡ some t
      → find n (ts ++ us) ≡ some t
  unfolding find
  find-append n [] us t h = cc
  find-append n ((m, u) ∷ ts) us t h = ground (arith, find-append n ts us t)

  -- The order of registration lists the keys of the table, and no key twice.
  pub record IsConsistent (r : Registry W) : Type 0 where
    pub listed : names r ≡ keys r.tools
    pub distinct : Distinct (names r)

  add_new-IsConsistent :
      (found : Option (Tool W)) (t : Tool W) (r : Registry W)
      → find t.name r.tools ≡ found
      → IsConsistent r
      → IsConsistent (add_new found t r).1
  unfolding add_new names
  add_new-IsConsistent (some u) t r h c = c
  add_new-IsConsistent none t r h c = record {
    listed = rw (keys-append, ← c.listed);
    distinct =
        Distinct-snoc r.order t.name c.distinct (rw c.listed (find-none-fresh t.name r.tools h));
  }

  add-IsConsistent : (t : Tool W) (r : Registry W) → IsConsistent r → IsConsistent (add t r).1
  unfolding add
  add-IsConsistent t r c = elim (Bool-cases (is_empty t.effect)) [
    | inl e ↦ rw e c
    | inr e ↦ rw e (add_new-IsConsistent (find t.name r.tools) t r refl c)
  ]

  -- Several registrations, whether each is accepted or refused.
  abbrev pub add_all : List (Tool W) → Registry W → Registry W
  add_all [] r = r
  add_all (t ∷ ts) r = add_all ts (add t r).1

  add_all_keeps :
      (ts : List (Tool W)) (r : Registry W) → IsConsistent r → IsConsistent (add_all ts r)
  add_all_keeps [] r c = c
  add_all_keeps (t ∷ ts) r c = add_all_keeps ts (add t r).1 (add-IsConsistent t r c)

  -- After any registrations, accepted or refused, the names of the registry are exactly the keys
  -- of its table, in the order of registration, and no name stands twice.
  pub add_all-IsConsistent : (ts : List (Tool W)) → IsConsistent (add_all ts (new_registry {W = W}))
  unfolding new_registry names
  add_all-IsConsistent ts = add_all_keeps ts new_registry (record { listed = refl; distinct = tt })

  find-add :
      (t : Tool W) (r : Registry W) (n : Text) (u : Tool W)
      → find n r.tools ≡ some u
      → find n (add t r).1.tools ≡ some u
  unfolding add
  find-add t r n u h = grind (arith, find-append)

  -- No later tool shadows an earlier one: the tool that a name finds, it still finds after any
  -- registrations.
  pub find-add_all :
      (ts : List (Tool W)) (r : Registry W) (n : Text) (u : Tool W)
      → find n r.tools ≡ some u
      → find n (add_all ts r).tools ≡ some u
  find-add_all [] r n u h = h
  find-add_all (t ∷ ts) r n u h = find-add_all ts (add t r).1 n u (find-add t r n u h)

  find_last :
      (n : Text) (ts : List (Text × Tool W)) (t : Tool W)
      → find n ts ≡ none
      → find n (ts ++ (n, t) ∷ []) ≡ some t
  unfolding find
  find_last n [] t h = ground (arith, text_eq_refl n)
  find_last n ((m, u) ∷ ts) t h = ground (arith, find_last n ts t)

  add_new_outcome :
      (found : Option (Tool W)) (t : Tool W) (r : Registry W)
      → find t.name r.tools ≡ found
      → ((u : Tool W) × (found ≡ some u) × (add_new found t r ≡ (some (duplicate_tool t.name), r)))
        ⊎ ((found ≡ none)
            × ((add_new found t r).0 ≡ none)
            × (find t.name (add_new found t r).1.tools ≡ some t))
  unfolding add_new
  add_new_outcome (some u) t r h = inl (u, refl, refl)
  add_new_outcome none t r h = inr (refl, refl, find_last t.name r.tools t h)

  -- A tool that declares an effect is refused exactly when its name is taken, and the refusal
  -- changes nothing. Otherwise it is accepted, and its name finds it.
  pub add_outcome :
      (t : Tool W) (r : Registry W)
      → t.effect ≢ []
      → ((u : Tool W) × (find t.name r.tools ≡ some u)
          × (add t r ≡ (some (duplicate_tool t.name), r)))
        ⊎ ((find t.name r.tools ≡ none)
            × ((add t r).0 ≡ none)
            × (find t.name (add t r).1.tools ≡ some t))
  unfolding add
  add_outcome t r h =
      let declared : is_empty t.effect ≡ false = ground arith in
      rw declared (add_new_outcome (find t.name r.tools) t r refl)
