-- ===== src/Agent/Exec/Known.antt =====
-- pkg/agentloop/execregistry.go: which processes `Kill` signals, and which files `List` removes.
use mathlib.Core.Path.{◌≡◌, refl, sym, ◌∙◌, subst}
use leartech_go_common.Base.{
  ℕ, Bool, true, false, not, ◌||◌, Option, none, some, List, [], ◌∷◌, ◌++◌, Text, if◌then◌else◌,
  Bool-cases, inl, inr, arith,
}
use leartech_go_common.Base.Int.{ℤ, pos, ◌-ℤ◌, ltb_ℤ, eq_ℤ}
use leartech_go_common.Base.Results.{Result, ok, err}
use leartech_go_common.Agent.Files.{FileError}
use leartech_go_common.Agent.Exec.{
  Entry, ExecPorts, is_json, insert_entry, sort_entries, is_known, process_alive, reap,
  list_decoded, list_read, list_name, list_names, list_found, list_entries, kill_listed, kill_entry,
}

if_true : {A : Type 0} {b : Bool} (x y : A) → b ≡ true → (if b then x else y) ≡ x
if_true x y e = rw e refl

if_false : {A : Type 0} {b : Bool} (x y : A) → b ≡ false → (if b then x else y) ≡ y
if_false x y e = rw e refl

json_file : (is_dir json : Bool) → (is_dir || not json) ≡ false → json ≡ true
json_file is_dir json h = ground (arith, h)

module _ {W : Type 0} (ports : ExecPorts W) where
  -- An entry that was read from a file of the registry while its shell was alive.
  abbrev pub IsLive : Entry → Type 0
  IsLive e =
      (name : Text) × (b : Text) × (u : W) × (is_json name ≡ true)
      × (ports.read_file name u ≡ some b)
      × (ports.unmarshal b ≡ some e)
      × (process_alive ports e.shell_pid u ≡ true)

  abbrev AllLive : List Entry → Type 0
  AllLive [] = Unit
  AllLive (e ∷ es) = IsLive e × AllLive es

  AllLive-append : (es fs : List Entry) → AllLive es → AllLive fs → AllLive (es ++ fs)
  AllLive-append [] fs h k = k
  AllLive-append (e ∷ es) fs (h, hs) k = (h, AllLive-append es fs hs k)

  insert_entry-AllLive :
      (e : Entry) (es : List Entry) → IsLive e → AllLive es → AllLive (insert_entry e es)
  unfolding insert_entry
  insert_entry-AllLive e [] h k = (h, tt)
  insert_entry-AllLive e (x ∷ xs) h (k, ks) = elim (Bool-cases (ltb_ℤ e.started x.started)) [
    | inl later ↦ subst AllLive (sym (if_true _ _ later)) (k, insert_entry-AllLive e xs h ks)
    | inr first ↦ subst AllLive (sym (if_false _ _ first)) (h, (k, ks))
  ]

  sort_entries-AllLive : (es : List Entry) → AllLive es → AllLive (sort_entries es)
  unfolding sort_entries
  sort_entries-AllLive [] h = tt
  sort_entries-AllLive (e ∷ es) (h, hs) =
      insert_entry-AllLive e (sort_entries es) h (sort_entries-AllLive es hs)

  is_known-IsLive :
      (pid : ℤ) (es : List Entry)
      → AllLive es
      → is_known pid es ≡ true
      → (e : Entry) × IsLive e × (eq_ℤ e.pid pid ≡ true)
  unfolding is_known
  is_known-IsLive pid [] h k = cc
  is_known-IsLive pid (e ∷ es) (h, hs) k = elim (Bool-cases (eq_ℤ e.pid pid)) [
    | inl same ↦ (e, h, same)
    | inr other ↦ is_known-IsLive pid es hs (sym (if_false _ _ other) ∙ k)
  ]

  -- A property of the world that the removal of a file of the registry keeps.
  abbrev pub KeepsRemovals : (W → Type 0) → Type 0
  KeepsRemovals P = (name : Text) (u : W) → is_json name ≡ true → P u → P (ports.remove name u)

  abbrev IsSound : (W → Type 0) → List Entry × W → Type 0
  IsSound P s = AllLive s.0 × P s.1

  reap-IsSound :
      (P : W → Type 0) (name b : Text) (e : Entry) (s : List Entry × W)
      → KeepsRemovals P
      → is_json name ≡ true
      → ports.read_file name s.1 ≡ some b
      → ports.unmarshal b ≡ some e
      → IsSound P s
      → IsSound P (reap ports name e s)
  unfolding reap
  reap-IsSound P name b e (out, w) keeps json read decoded (live, h) =
      elim (Bool-cases (process_alive ports e.shell_pid w)) [
        | inl alive ↦
            subst (IsSound P) (sym (if_true _ _ alive))
              (AllLive-append out (e ∷ []) live ((name, b, w, json, read, decoded, alive), tt), h)
        | inr gone ↦ subst (IsSound P) (sym (if_false _ _ gone)) (live, keeps name w json h)
      ]

  list_decoded-IsSound :
      (P : W → Type 0) (name b : Text) (o : Option Entry) (s : List Entry × W)
      → KeepsRemovals P
      → is_json name ≡ true
      → ports.read_file name s.1 ≡ some b
      → ports.unmarshal b ≡ o
      → IsSound P s
      → IsSound P (list_decoded ports name o s)
  unfolding list_decoded
  list_decoded-IsSound P name b none (out, w) keeps json read decoded (live, h) =
      (live, keeps name w json h)
  list_decoded-IsSound P name b (some e) (out, w) keeps json read decoded h =
      reap-IsSound P name b e (out, w) keeps json read decoded h

  list_read-IsSound :
      (P : W → Type 0) (name : Text) (o : Option Text) (s : List Entry × W)
      → KeepsRemovals P
      → is_json name ≡ true
      → ports.read_file name s.1 ≡ o
      → IsSound P s
      → IsSound P (list_read ports name o s)
  unfolding list_read
  list_read-IsSound P name none s keeps json read h = h
  list_read-IsSound P name (some b) s keeps json read h =
      list_decoded-IsSound P name b (ports.unmarshal b) s keeps json read refl h

  list_name-IsSound :
      (P : W → Type 0) (n : Text × Bool) (s : List Entry × W)
      → KeepsRemovals P
      → IsSound P s
      → IsSound P (list_name ports n s)
  unfolding list_name
  list_name-IsSound P (name, is_dir) s keeps h = elim (Bool-cases (is_dir || not (is_json name))) [
    | inl skip ↦ subst (IsSound P) (sym (if_true _ _ skip)) h
    | inr file ↦ subst (IsSound P) (sym (if_false _ _ file)) (
        list_read-IsSound P name (ports.read_file name s.1) s keeps
          (json_file is_dir (is_json name) file) refl h)
  ]

  list_names-IsSound :
      (P : W → Type 0) (ns : List (Text × Bool)) (s : List Entry × W)
      → KeepsRemovals P
      → IsSound P s
      → IsSound P (list_names ports ns s)
  unfolding list_names
  list_names-IsSound P [] s keeps h = h
  list_names-IsSound P (n ∷ ns) s keeps h =
      list_names-IsSound P ns (list_name ports n s) keeps (list_name-IsSound P n s keeps h)

  abbrev IsListing : (W → Type 0) → Result Text (List Entry) × W → Type 0
  IsListing P (err e, w) = P w
  IsListing P (ok es, w) = AllLive es × P w

  list_found-IsListing :
      (P : W → Type 0) (r : Result FileError (List (Text × Bool))) (w : W)
      → KeepsRemovals P
      → P w
      → IsListing P (list_found ports r w)
  unfolding list_found
  list_found-IsListing P (ok ns) w keeps h =
      let (live, k) = list_names-IsSound P ns ([], w) keeps (tt, h) in
      (sort_entries-AllLive (list_names ports ns ([], w)).0 live, k)
  list_found-IsListing P (err e) w keeps h = elim (Bool-cases e.missing) [
    | inl gone ↦ subst (IsListing P) (sym (if_true _ _ gone)) (tt, h)
    | inr failed ↦ subst (IsListing P) (sym (if_false _ _ failed)) h
  ]

  -- A property that a signal to the group of a process keeps, when a live entry has that process.
  abbrev pub KeepsKill : ℤ → (W → Type 0) → Type 0
  KeepsKill pid P =
      (e : Entry) (signal : ℕ) (u : W)
      → IsLive e
      → eq_ℤ e.pid pid ≡ true
      → P u
      → P (ports.kill (pos 0 -ℤ pid) signal u).1

  kill_listed-frame :
      (P : W → Type 0) (pid : ℤ) (force : Bool) (r : Result Text (List Entry) × W)
      → KeepsKill pid P
      → IsListing P r
      → P (kill_listed ports pid force r).1
  unfolding kill_listed
  kill_listed-frame P pid force (err e, w) kills h = h
  kill_listed-frame P pid force (ok es, w) kills (live, h) = elim (Bool-cases (is_known pid es)) [
    | inl known ↦
        let (e, e_live, same) = is_known-IsLive pid es live known in
        subst (λ (s : Option Text × W). P s.1) (sym (if_true _ _ known))
          (kills e (if force then 9 else 15) w e_live same h)
    | inr unknown ↦ subst (λ (s : Option Text × W). P s.1) (sym (if_false _ _ unknown)) h
  ]

  -- A property of the world that holds before `Kill` of a pid holds after it, whatever the outcome, if
  -- it is kept by the removal of a `.json` file of the registry, and by a signal to the group of that
  -- pid in the case that an entry with that pid was read from such a file while its shell was alive:
  -- `Kill` signals nothing else, and no other process.
  pub kill_entry-frame :
      (P : W → Type 0) (pid : ℤ) (force : Bool) (w : W)
      → KeepsRemovals P
      → KeepsKill pid P
      → P w
      → P (kill_entry ports pid force w).1
  unfolding kill_entry list_entries
  kill_entry-frame P pid force w removals kills h =
      kill_listed-frame P pid force (list_entries ports w) kills
        (list_found-IsListing P (ports.read_dir w) w removals h)
