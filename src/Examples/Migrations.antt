-- ===== src/Examples/Migrations.antt =====
-- pkg/mongo/migration at a concrete database: its state is the list of what was done to it.
use mathlib.Core.List.{Perm}
use leartech_go_common.Base.{
  ◌≡◌, refl, none, some, List, [], ◌∷◌, ◌++◌, map, take, codes, Text, text_eq, contains,
}
use leartech_go_common.Base.Int.{pos}
use leartech_go_common.Base.Results.{ok, err}
use leartech_go_common.Mongo.Migration.{Migration, Collection, sort_migrations, run_migrations}
use leartech_go_common.Mongo.Migration.Order.{IsOrdered, unrecorded, Ran, run_migrations-Ran}

abbrev named : Text → Migration (List Text)
named v = record { version = v; description = []; up = λ w. (none, w ++ (codes "up " ++ v) ∷ []) }

abbrev registered : List (Migration (List Text))
registered = named (codes "003") ∷ named (codes "001") ∷ named (codes "002") ∷ []

abbrev database : Collection (List Text)
database = record { find_all = λ w. (ok (map some w), w); insert_one = λ v w. (none, w ++ v ∷ []) }

-- A collection that cannot be read.
abbrev unreadable : Collection (List Text)
unreadable = record {
  find_all = λ w. (err (codes "down"), w);
  insert_one = λ v w. (none, w ++ v ∷ []);
}

second_and_third : run_migrations database registered (pos 5) (codes "001" ∷ []) ≡ record {
  error = none;
  world = codes "001" ∷ codes "up 002" ∷ codes "002" ∷ codes "up 003" ∷ codes "003" ∷ [];
}
unfolding run_migrations text_eq codes contains
second_and_third = refl

-- An applied migration runs again when the records cannot be read.
runs_again :
    (run_migrations unreadable registered (pos 1) (codes "001" ∷ [])).world
    ≡ codes "001" ∷ codes "up 001" ∷ codes "001" ∷ []
unfolding run_migrations text_eq codes contains
runs_again = refl

run_migrations-Ran_example :
    Perm registered (sort_migrations registered)
    × IsOrdered (sort_migrations registered)
    × Ran database
        (take 1 (unrecorded (map some (codes "001" ∷ [])) (sort_migrations registered)))
        (codes "001" ∷ [])
        (run_migrations database registered (pos 1) (codes "001" ∷ []))
run_migrations-Ran_example =
    run_migrations-Ran database registered (pos 1) (codes "001" ∷ []) (codes "001" ∷ [])
      (map some (codes "001" ∷ [])) refl
