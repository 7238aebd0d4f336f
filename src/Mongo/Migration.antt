-- ===== src/Mongo/Migration.antt =====
-- pkg/mongo/migration/migration.go: `RunMigrations`. `W` is the state of the database and of everything
-- else outside. An error is its text.
pub mod Order
use leartech_go_common.Base.{
  ℕ, suc, Bool, true, false, ◌||◌, Option, none, some, List, [], ◌∷◌, ◌++◌, map, Text, contains,
  ltb, ◌==◌, if◌then◌else◌,
}
use leartech_go_common.Base.Int.{ℤ, pos, leb_ℤ}
use leartech_go_common.Base.Results.{Result, ok, err}

pub record Migration (W : Type 0) : Type 0 where
  pub version : Text
  pub description : Text
  pub up : W → Option Text × W

-- What the manager asks of the collection `_migrations`. `find_all` gives the versions of the records,
-- with `none` for a record that does not decode, or it fails. `insert_one` adds the record of a
-- version.
pub record Collection (W : Type 0) : Type 0 where
  pub find_all : W → Result Text (List (Option Text)) × W
  pub insert_one : Text → W → Option Text × W

pub data MigrationError : Type 0 where
  failed : Text → Text → MigrationError
  not_recorded : Text → Text → MigrationError

-- `s < t` of strings.
unfoldable pub text_less : Text → Text → Bool
text_less s [] = false
text_less [] (b ∷ t) = true
text_less (a ∷ s) (b ∷ t) = let rest = text_less s t in if a == b then rest else ltb a b

-- The versions of the records that decode.
unfoldable pub decoded : List (Option Text) → List Text
decoded [] = []
decoded (none ∷ rs) = decoded rs
decoded (some v ∷ rs) = v ∷ decoded rs

-- `applied`, which is empty where `Find` fails.
unfoldable pub applied_of : Result Text (List (Option Text)) → List Text
unfolding decoded
applied_of (err e) = []
applied_of (ok rs) = decoded rs

-- How `RunMigrations` returns, with everything outside.
pub record Migrated (W : Type 0) : Type 0 where
  pub error : Option MigrationError
  pub world : W

module _ {W : Type 0} where
  unfoldable pub insert_migration : Migration W → List (Migration W) → List (Migration W)
  unfolding text_less
  insert_migration m [] = m ∷ []
  insert_migration m (n ∷ ms) =
      let rest = insert_migration m ms in
      if text_less n.version m.version then n ∷ rest else m ∷ n ∷ ms

  -- `sort.Slice` by version. It may put migrations of one version in any order, here in the order of
  -- registration.
  unfoldable pub sort_migrations : List (Migration W) → List (Migration W)
  unfolding insert_migration
  sort_migrations [] = []
  sort_migrations (m ∷ ms) = insert_migration m (sort_migrations ms)

  -- `Register`
  unfoldable pub register : Migration W → List (Migration W) → List (Migration W)
  register m ms = ms ++ m ∷ []

  unfoldable pub stopped : MigrationError → W → Migrated W
  stopped e w = record { error = some e; world = w }

  -- `return nil`
  unfoldable pub finished : W → Migrated W
  finished w = record { error = none; world = w }

  -- The record of a migration that ran, with the rest of the loop, which is given how many ran.
  unfoldable pub recorded : Text → ℕ → Option Text × W → (ℕ → W → Migrated W) → Migrated W
  unfolding stopped
  recorded version ran (some e, w) rest = stopped (not_recorded version e) w
  recorded version ran (none, w) rest = rest (suc ran) w

  unfoldable pub ran_up :
      Collection W → Text → ℕ → Option Text × W → (ℕ → W → Migrated W) → Migrated W
  unfolding recorded stopped
  ran_up c version ran (some e, w) rest = stopped (failed version e) w
  ran_up c version ran (none, w) rest = recorded version ran (c.insert_one version w) rest

  -- The body of the loop for a migration, by whether `ran >= limit` and whether it is applied.
  unfoldable pub try_migration :
      Collection W → Bool → Bool → Migration W → ℕ → W → (ℕ → W → Migrated W) → Migrated W
  unfolding ran_up finished
  try_migration c true known m ran w rest = finished w
  try_migration c false true m ran w rest = rest ran w
  try_migration c false false m ran w rest = ran_up c m.version ran (m.up w) rest

  -- The loop over the sorted migrations.
  unfoldable pub run_sorted : Collection W → ℤ → List Text → List (Migration W) → ℕ → W → Migrated W
  unfolding try_migration finished
  run_sorted c limit applied [] ran w = finished w
  run_sorted c limit applied (m ∷ ms) ran w =
      try_migration c (leb_ℤ limit (pos ran)) (contains applied m.version) m ran w
        (run_sorted c limit applied ms)

  unfoldable pub run_migrations : Collection W → List (Migration W) → ℤ → W → Migrated W
  unfolding run_sorted sort_migrations applied_of
  run_migrations c migrations limit w =
      run_sorted c limit (applied_of (c.find_all w).0) (sort_migrations migrations) 0
        (c.find_all w).1
