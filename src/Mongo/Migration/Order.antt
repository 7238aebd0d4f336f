-- ===== src/Mongo/Migration/Order.antt =====
-- Which migrations run, and in which order.
use mathlib.Core.Path.{subst}
use mathlib.Core.List.{Perm}
use mathlib.Core.List.Perm
use leartech_go_common.Base.{
  ℕ, zero, suc, ◌-◌, ◌≡◌, refl, sym, ap, arith, Bool, text_eq, true, false, Option, none, some,
  List, [], ◌∷◌, Text, contains, take, Bool-cases, inl, inr, if◌then◌else◌,
}
use leartech_go_common.Base.Int.{ℤ, pos, pos_part, leb_ℤ}
use leartech_go_common.Base.Results.{ok}
use leartech_go_common.Mongo.Migration.{
  Migration, Collection, Migrated, text_less, applied_of, insert_migration, sort_migrations, failed,
  not_recorded, finished, decoded, stopped, recorded, ran_up, try_migration, run_sorted,
  run_migrations,
}

text_less_asym : (s t : Text) → text_less s t ≡ true → text_less t s ≡ false
unfolding text_less
text_less_asym s [] h = cc
text_less_asym [] (b ∷ t) h = refl
text_less_asym (a ∷ s) (b ∷ t) h = ground (arith, text_less_asym s t)

take_nil : {A : Type 0} (n : ℕ) → Path (List A) (take n []) []
take_nil zero = refl
take_nil (suc n) = refl

within :
    (limit : ℤ) (ran : ℕ)
    → leb_ℤ limit (pos ran) ≡ false
    → pos_part limit - ran ≡ suc (pos_part limit - suc ran)
within limit ran h = ground arith

nothing_left : (limit : ℤ) (ran : ℕ) → leb_ℤ limit (pos ran) ≡ true → pos_part limit - ran ≡ 0
nothing_left limit ran h = ground (arith, h)

whole : (limit : ℤ) → pos_part limit - 0 ≡ pos_part limit
whole limit = omega arith

-- Whether a record that decodes has the version.
abbrev pub is_recorded : List (Option Text) → Text → Bool
is_recorded [] v = false
is_recorded (none ∷ rs) v = is_recorded rs v
is_recorded (some u ∷ rs) v = if text_eq u v then true else is_recorded rs v

decoded_iff : (rs : List (Option Text)) (v : Text) → contains (decoded rs) v ≡ is_recorded rs v
unfolding contains decoded
decoded_iff [] v = refl
decoded_iff (none ∷ rs) v = decoded_iff rs v
decoded_iff (some u ∷ rs) v = ap (λ b. if text_eq u v then true else b) (decoded_iff rs v)

module _ {W : Type 0} where
  -- No migration has a lower version than the one before it.
  abbrev pub IsOrdered : List (Migration W) → Type 0
  IsOrdered [] = Unit
  IsOrdered (m ∷ []) = Unit
  IsOrdered (m ∷ n ∷ ms) = (text_less n.version m.version ≡ false) × IsOrdered (n ∷ ms)

  insert-IsOrdered :
      (m : Migration W) (ms : List (Migration W)) → IsOrdered ms → IsOrdered (insert_migration m ms)
  unfolding insert_migration
  insert-IsOrdered m [] h = tt
  insert-IsOrdered m (n ∷ []) h = ground (arith, text_less_asym n.version m.version)
  insert-IsOrdered m (n ∷ k ∷ ms) (a, h) =
      ground (arith, text_less_asym n.version m.version, insert-IsOrdered m (k ∷ ms) h)

  sort_migrations-IsOrdered : (ms : List (Migration W)) → IsOrdered (sort_migrations ms)
  unfolding sort_migrations
  sort_migrations-IsOrdered [] = tt
  sort_migrations-IsOrdered (m ∷ ms) =
      insert-IsOrdered m (sort_migrations ms) (sort_migrations-IsOrdered ms)

  insert-Perm : (m : Migration W) (ms : List (Migration W)) → Perm (m ∷ ms) (insert_migration m ms)
  unfolding insert_migration
  insert-Perm m [] = Perm.refl (m ∷ [])
  insert-Perm m (n ∷ ms) = elim (Bool-cases (text_less n.version m.version)) [
    | inl after ↦ rw after (Perm.trans (Perm.swap n m ms) (Perm.cons n (insert-Perm m ms)))
    | inr before ↦ rw before (Perm.refl (m ∷ n ∷ ms))
  ]

  sort_migrations-Perm : (ms : List (Migration W)) → Perm ms (sort_migrations ms)
  unfolding sort_migrations
  sort_migrations-Perm [] = Perm.refl []
  sort_migrations-Perm (m ∷ ms) =
      Perm.trans (Perm.cons m (sort_migrations-Perm ms)) (insert-Perm m (sort_migrations ms))

  -- The migrations without a record that decodes, in the order of the list.
  abbrev pub unrecorded : List (Option Text) → List (Migration W) → List (Migration W)
  unrecorded records [] = []
  unrecorded records (m ∷ ms) =
      let rest = unrecorded records ms in if is_recorded records m.version then rest else m ∷ rest

  -- Some migrations one after the other, each with its `Up` and then its record, up to the first error.
  pub data Ran (c : Collection W) : List (Migration W) → W → Migrated W → Type 0 where
    all_done : (w : W) → Ran c [] w (record { error = none; world = w })
    up_fails :
        (m : Migration W) (ms : List (Migration W)) (w u : W) (e : Text)
        → m.up w ≡ (some e, u)
        → Ran c (m ∷ ms) w (record { error = some (failed m.version e); world = u })
    record_fails :
        (m : Migration W) (ms : List (Migration W)) (w u v : W) (e : Text)
        → m.up w ≡ (none, u)
        → c.insert_one m.version u ≡ (some e, v)
        → Ran c (m ∷ ms) w (record { error = some (not_recorded m.version e); world = v })
    done_next :
        (m : Migration W) (ms : List (Migration W)) (w u v : W) (out : Migrated W)
        → m.up w ≡ (none, u)
        → c.insert_one m.version u ≡ (none, v)
        → Ran c ms v out
        → Ran c (m ∷ ms) w out

  recorded-Ran :
      (c : Collection W) (m : Migration W) (ms : List (Migration W)) (ran : ℕ) (w u : W)
      (r : Option Text × W) (rest : ℕ → W → Migrated W)
      → m.up w ≡ (none, u)
      → c.insert_one m.version u ≡ r
      → ((v : W) → Ran c ms v (rest (suc ran) v))
      → Ran c (m ∷ ms) w (recorded m.version ran r rest)
  unfolding recorded stopped
  recorded-Ran c m ms ran w u (some e, v) rest up inserted k = record_fails m ms w u v e up inserted
  recorded-Ran c m ms ran w u (none, v) rest up inserted k =
      done_next m ms w u v (rest (suc ran) v) up inserted (k v)

  ran_up-Ran :
      (c : Collection W) (m : Migration W) (ms : List (Migration W)) (ran : ℕ) (w : W)
      (r : Option Text × W) (rest : ℕ → W → Migrated W)
      → m.up w ≡ r
      → ((v : W) → Ran c ms v (rest (suc ran) v))
      → Ran c (m ∷ ms) w (ran_up c m.version ran r rest)
  unfolding ran_up stopped
  ran_up-Ran c m ms ran w (some e, u) rest up k = up_fails m ms w u e up
  ran_up-Ran c m ms ran w (none, u) rest up k =
      recorded-Ran c m ms ran w u (c.insert_one m.version u) rest up refl k

  finished-Ran :
      (c : Collection W) (ms : List (Migration W)) (n : ℕ) (w : W)
      → take n ms ≡ []
      → Ran c (take n ms) w (finished w)
  unfolding finished
  finished-Ran c ms n w e = subst (λ l. Ran c l w (finished w)) (sym e) (all_done w)

  run_sorted-Ran :
      (c : Collection W) (limit : ℤ) (records : List (Option Text)) (ms : List (Migration W))
      (ran : ℕ) (w : W)
      → Ran c
          (take (pos_part limit - ran) (unrecorded records ms))
          w
          (run_sorted c limit (decoded records) ms ran w)
  unfolding run_sorted try_migration
  run_sorted-Ran c limit records [] ran w =
      finished-Ran c [] (pos_part limit - ran) w (take_nil (pos_part limit - ran))
  run_sorted-Ran c limit records (m ∷ ms) ran w = elim (Bool-cases (leb_ℤ limit (pos ran))) [
    | inl over ↦ rw over (
        finished-Ran c (unrecorded records (m ∷ ms)) (pos_part limit - ran) w
          (ap (λ n. take n (unrecorded records (m ∷ ms))) (nothing_left limit ran over)))
    | inr under ↦ elim (Bool-cases (is_recorded records m.version)) [
      | inl known ↦
          rw (under, decoded_iff records m.version, known) (run_sorted-Ran c limit records ms ran w)
      | inr unknown ↦
          rw (under, decoded_iff records m.version, unknown, within limit ran under)
            (ran_up-Ran c m (take (pos_part limit - suc ran) (unrecorded records ms)) ran w (m.up w)
              (run_sorted c limit (decoded records) ms) refl
              (run_sorted-Ran c limit records ms (suc ran)))
    ]
  ]

  -- Given that the records of `_migrations` can be read, `RunMigrations` sorts the registered
  -- migrations by version, and then runs the `Up` of the first ones that have no record that decodes,
  -- at most as many as the limit, one after the other, with the record of each written after it, up to
  -- the first error of an `Up` or of a record. It returns that error, named after the migration, and
  -- changes nothing else.
  pub run_migrations-Ran :
      (c : Collection W) (migrations : List (Migration W)) (limit : ℤ) (w u : W)
      (records : List (Option Text))
      → c.find_all w ≡ (ok records, u)
      → Perm migrations (sort_migrations migrations)
        × IsOrdered (sort_migrations migrations)
        × Ran c
            (take (pos_part limit) (unrecorded records (sort_migrations migrations)))
            u
            (run_migrations c migrations limit w)
  unfolding run_migrations applied_of
  run_migrations-Ran c migrations limit w u records found = (
    sort_migrations-Perm migrations,
    sort_migrations-IsOrdered migrations,
    rw found (
        subst
          (λ n.
            Ran c (take n (unrecorded records (sort_migrations migrations))) u
              (run_sorted c limit (decoded records) (sort_migrations migrations) 0 u))
          (whole limit) (run_sorted-Ran c limit records (sort_migrations migrations) 0 u)),
  )
