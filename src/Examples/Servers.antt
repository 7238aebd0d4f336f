-- ===== src/Examples/Servers.antt =====
-- The queue and the lock over a Redis server in memory: its lists are one function of the key, its set
-- keys are another.
use mathlib.Core.Path.{◌≡◌, refl, sym, ap, ◌∙◌}
use leartech_go_common.Base.{
  Bool, true, false, not, none, List, [], ◌∷◌, ◌++◌, Text, codes, text_eq, text_eq_refl, length,
  if◌then◌else◌, arith,
}
use leartech_go_common.Base.Int.{pos}
use leartech_go_common.Base.Results.{Result, ok, err, ok-injective}
use leartech_go_common.Redis.{Redis}
use leartech_go_common.Redis.Queue.{Json, push, pop, len}
use leartech_go_common.Redis.Fifo.{
  QueueOp, pushing, popping, counting, Fifo, ListLaws, Runs, Encoded, Runs-Fifo,
}
use leartech_go_common.Redis.Lock.{RedisLock, acquire_lock, release_lock}
use leartech_go_common.Redis.Exclusive.{
  LockStep, acquiring, passing, KeyLaws, Happens, NoneAcquires, acquire_lock-excludes,
}

abbrev Lists : Type 0
Lists = Text → List Text

abbrev put_list : Text → List Text → Lists → Lists
put_list key ds w k = if text_eq key k then ds else w k

abbrev pop_from : Text → Lists → List Text → Result Text Text × Lists
pop_from key w [] = (err (codes "redis: nil"), w)
pop_from key w (d ∷ ds) = (ok d, put_list key ds w)

abbrev list_server : Redis Lists
list_server = record {
  set_nx = λ key value ttl w. (ok true, w);
  del = λ key w. (none, w);
  r_push = λ key d w. (none, put_list key (w key ++ d ∷ []) w);
  l_pop = λ key w. pop_from key w (w key);
  l_len = λ key w. (ok (length (w key)), w);
}

put_list-same : (key : Text) (ds : List Text) (w : Lists) → put_list key ds w key ≡ ds
put_list-same key ds w = rw (text_eq_refl key) refl

no_value : {e d : Text} → ◌≡◌ {A = Result Text Text} (err e) (ok d) → ⊥
no_value h = cc

pop_from_laws :
    (key d : Text) (w v : Lists) (ds : List Text) → pop_from key w ds ≡ (ok d, v) → ds ≡ d ∷ v key
pop_from_laws key d w v [] h = absurd (no_value (ap (λ r. r.0) h))
pop_from_laws key d w v (c ∷ ds) h =
    ap (λ x. x ∷ ds) (ok-injective {E = Text} (ap (λ r. r.0) h))
    ∙ ap (λ xs. d ∷ xs) (sym (put_list-same key ds w) ∙ ap (λ r. r.1 key) h)

list_server-ListLaws : ListLaws list_server (λ key w. w key)
list_server-ListLaws = record {
  pushes = λ key d w v h. ap (λ r. r.1 key) (sym h) ∙ put_list-same key (w key ++ d ∷ []) w;
  pops = λ key d w v h. pop_from_laws key d w v (w key) h;
  counts =
      λ key n w v h. (sym (ok-injective {E = Text} (ap (λ r. r.0) h)), ap (λ r. r.1 key) (sym h));
}

-- A text is its own JSON.
abbrev plain_json : Json Text
plain_json = record { marshal = λ x. ok x; unmarshal = λ d. ok d }

abbrev jobs : Text
jobs = codes "jobs"

abbrev empty_lists : Lists
empty_lists key = []

abbrev queue_ops : List (QueueOp Text)
queue_ops = pushing (codes "a") ∷ pushing (codes "b") ∷ counting 2 ∷ popping (codes "a") ∷ []

abbrev after_a : Lists
after_a = put_list jobs (codes "a" ∷ []) empty_lists

abbrev after_b : Lists
after_b = put_list jobs (codes "a" ∷ codes "b" ∷ []) after_a

queue-Runs :
    Runs list_server plain_json jobs queue_ops empty_lists (put_list jobs (codes "b" ∷ []) after_b)
unfolding push pop len codes text_eq
queue-Runs = (
  after_a,
  refl,
  (after_b, refl, (after_b, refl, (put_list jobs (codes "b" ∷ []) after_b, refl, refl))),
)

Runs-Fifo_example :
    (ys : List Text) × Fifo [] queue_ops ys
    × Encoded list_server plain_json ys (put_list jobs (codes "b" ∷ []) after_b jobs)
Runs-Fifo_example =
    Runs-Fifo list_server plain_json (λ key w. w key) jobs queue_ops [] empty_lists
      (put_list jobs (codes "b" ∷ []) after_b) list_server-ListLaws (λ x d h. sym h) tt queue-Runs

abbrev Keys : Type 0
Keys = Text → Bool

abbrev put_key : Text → Bool → Keys → Keys
put_key key b w k = if text_eq key k then b else w k

abbrev key_server : Redis Keys
key_server = record {
  set_nx = λ key value ttl w. (ok (not (w key)), put_key key true w);
  del = λ key w. (none, put_key key false w);
  r_push = λ key d w. (none, w);
  l_pop = λ key w. (err (codes "redis: nil"), w);
  l_len = λ key w. (ok 0, w);
}

put_key-same : (key : Text) (b : Bool) (w : Keys) → put_key key b w key ≡ b
put_key-same key b w = rw (text_eq_refl key) refl

set_key : (key other : Text) (w : Keys) → w other ≡ true → put_key key true w other ≡ true
set_key key other w h = ground (arith, h)

not_set : (b : Bool) → not b ≡ true → b ≡ false
not_set true h = cc
not_set false h = refl

key_server-KeyLaws : KeyLaws key_server (λ key w. w key)
key_server-KeyLaws = record {
  sets = λ key value ttl w v h. (
    not_set (w key) (ok-injective {E = Text} (ap (λ r. r.0) h)),
    ap (λ r. r.1 key) (sym h) ∙ put_key-same key true w,
  );
  keeps =
      λ key value ttl w v r other h held. ap (λ r. r.1 other) (sym h) ∙ set_key key other w held;
  dels = λ key w v e other h differs held.
      ap (λ r. r.1 other) (sym h) ∙ (ap (λ b. if b then false else w other) differs ∙ held);
}

abbrev lock : RedisLock
lock = record { ttl = pos 30000000000; prefix = codes "lock" }

abbrev no_keys : Keys
no_keys key = false

abbrev job_held : Keys
job_held = put_key (codes "lock:job") true no_keys

abbrev both_held : Keys
both_held = put_key (codes "lock:other") true job_held

abbrev later_steps : List LockStep
later_steps = acquiring (codes "other") true ∷ passing ∷ acquiring (codes "job") false ∷ []

job_acquired : acquire_lock key_server lock (codes "job") no_keys ≡ (true, job_held)
unfolding acquire_lock codes text_eq
job_acquired = refl

steps_happen :
    Happens key_server lock
      (λ key w. w key)
      (codes "job")
      later_steps
      job_held
      (put_key (codes "lock:job") true both_held)
unfolding acquire_lock codes text_eq
steps_happen = (
  both_held,
  refl,
  (both_held, (λ h. h), (put_key (codes "lock:job") true both_held, refl, refl)),
)

acquire_lock-excludes_example : NoneAcquires (codes "job") later_steps
acquire_lock-excludes_example =
    acquire_lock-excludes key_server lock (λ key w. w key) (codes "job") later_steps no_keys
      job_held (put_key (codes "lock:job") true both_held) key_server-KeyLaws job_acquired tt
      steps_happen

-- A release names no holder: it frees the lock whoever acquired it.
released_by_another :
    (acquire_lock key_server lock
      (codes "job")
      (release_lock key_server lock
        (codes "job")
        (acquire_lock key_server lock (codes "job") no_keys).1).1).0
    ≡ true
unfolding acquire_lock release_lock codes text_eq
released_by_another = refl
