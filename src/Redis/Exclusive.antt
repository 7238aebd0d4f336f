-- ===== src/Redis/Exclusive.antt =====
-- pkg/lock/lock.go: who holds a lock holds it alone.
use mathlib.Core.Path.{◌≡◌, refl, sym, ap, ◌∙◌, subst}
use leartech_go_common.Base.{
  Bool, true, false, Option, List, [], ◌∷◌, ◌++◌, Text, codes, text_eq, text_eq_iff, is_empty,
  Bool-cases, inl, inr, arith,
}
use leartech_go_common.Base.Int.{ℤ}
use leartech_go_common.Base.Results.{Result, ok, err}
use leartech_go_common.Redis.{Redis}
use leartech_go_common.Redis.Lock.{RedisLock, lock_key, acquired, acquire_lock, release_lock}

-- An attempt with its outcome, a release, and time that passes.
pub data LockStep : Type 0 where
  acquiring : Text → Bool → LockStep
  releasing : Text → LockStep
  passing : LockStep

-- What is documented of the commands: `SETNX` sets a key that is not set, and says so, and it unsets
-- none, and `DEL` unsets no key but its own. `is_set` tells whether a key is set.
pub record KeyLaws {W : Type 0} (redis : Redis W) (is_set : Text → W → Bool) : Type 0 where
  pub sets :
      (key value : Text) (ttl : ℤ) (w v : W)
      → redis.set_nx key value ttl w ≡ (ok true, v)
      → (is_set key w ≡ false) × (is_set key v ≡ true)
  pub keeps :
      (key value : Text) (ttl : ℤ) (w v : W) (r : Result Text Bool) (other : Text)
      → redis.set_nx key value ttl w ≡ (r, v)
      → is_set other w ≡ true
      → is_set other v ≡ true
  pub dels :
      (key : Text) (w v : W) (e : Option Text) (other : Text)
      → redis.del key w ≡ (e, v)
      → text_eq key other ≡ false
      → is_set other w ≡ true
      → is_set other v ≡ true

text_eq-prefix : (p s t : Text) → text_eq (p ++ s) (p ++ t) ≡ text_eq s t
unfolding text_eq
text_eq-prefix [] s t = refl
text_eq-prefix (c ∷ p) s t = ground (arith, text_eq-prefix p s t)

lock_key-text_eq :
    (l : RedisLock) (s t : Text) → text_eq (lock_key l s) (lock_key l t) ≡ text_eq s t
unfolding lock_key
lock_key-text_eq l s t = elim (Bool-cases (is_empty l.prefix)) [
  | inl bare ↦ rw bare refl
  | inr some_prefix ↦
      rw some_prefix
        (text_eq-prefix l.prefix (codes ":" ++ s) (codes ":" ++ t) ∙ text_eq-prefix (codes ":") s t)
]

-- No release of a lock among the steps.
abbrev pub NotReleased : Text → List LockStep → Type 0
NotReleased key [] = Unit
NotReleased key (acquiring k b ∷ ops) = NotReleased key ops
NotReleased key (releasing k ∷ ops) = (text_eq k key ≡ false) × NotReleased key ops
NotReleased key (passing ∷ ops) = NotReleased key ops

-- Every attempt at a lock among the steps fails.
abbrev pub NoneAcquires : Text → List LockStep → Type 0
NoneAcquires key [] = Unit
NoneAcquires key (acquiring k b ∷ ops) = (text_eq k key ≡ true → b ≡ false) × NoneAcquires key ops
NoneAcquires key (releasing k ∷ ops) = NoneAcquires key ops
NoneAcquires key (passing ∷ ops) = NoneAcquires key ops

no_both : {b : Bool} → b ≡ true → b ≡ false → ⊥
no_both e h = cc

pair_eq : {A W : Type 0} (r : A × W) (u : W) → r.1 ≡ u → r ≡ (r.0, u)
pair_eq r u e = ap (λ x. (r.0, x)) e

not_acquired : (r : Result Text Bool) → (r ≡ ok true → ⊥) → acquired r ≡ false
unfolding acquired
not_acquired (ok true) h = absurd (h refl)
not_acquired (ok false) h = refl
not_acquired (err e) h = refl

acquired-eq-true : (r : Result Text Bool) → acquired r ≡ true → r ≡ ok true
unfolding acquired
acquired-eq-true (ok b) h = ap ok h
acquired-eq-true (err e) h = cc

module _ {W : Type 0} (redis : Redis W) (l : RedisLock) (is_set : Text → W → Bool) where
  -- The steps happen one after the other, and whatever time passes, the key of `held` stays set.
  abbrev pub Happens : Text → List LockStep → W → W → Type 0
  Happens held [] w v = w ≡ v
  Happens held (acquiring key b ∷ ops) w v =
      (u : W) × (acquire_lock redis l key w ≡ (b, u)) × Happens held ops u v
  Happens held (releasing key ∷ ops) w v =
      (u : W) × (e : Option Text) × (release_lock redis l key w ≡ (e, u)) × Happens held ops u v
  Happens held (passing ∷ ops) w v =
      (u : W) × (is_set (lock_key l held) w ≡ true → is_set (lock_key l held) u ≡ true)
      × Happens held ops u v

  acquire_lock-keeps :
      (key other : Text) (b : Bool) (w u : W)
      → KeyLaws redis is_set
      → acquire_lock redis l key w ≡ (b, u)
      → is_set other w ≡ true
      → is_set other u ≡ true
  unfolding acquire_lock
  acquire_lock-keeps key other b w u laws e h =
      laws.keeps (lock_key l key) (codes "locked") l.ttl w u
        (redis.set_nx (lock_key l key) (codes "locked") l.ttl w).0 other
        (pair_eq (redis.set_nx (lock_key l key) (codes "locked") l.ttl w) u (ap (λ r. r.1) e)) h

  -- A set key is not acquired.
  acquire_lock-taken :
      (key : Text) (b : Bool) (w u : W)
      → KeyLaws redis is_set
      → is_set (lock_key l key) w ≡ true
      → acquire_lock redis l key w ≡ (b, u)
      → b ≡ false
  unfolding acquire_lock
  acquire_lock-taken key b w u laws h e =
      sym (ap (λ r. r.0) e)
      ∙ not_acquired (redis.set_nx (lock_key l key) (codes "locked") l.ttl w).0 (λ got.
        no_both h
          (laws.sets (lock_key l key) (codes "locked") l.ttl w
            (redis.set_nx (lock_key l key) (codes "locked") l.ttl w).1
            (ap (λ r. (r, (redis.set_nx (lock_key l key) (codes "locked") l.ttl w).1)) got)).0)

  acquire_lock-sets :
      (key : Text) (w u : W)
      → KeyLaws redis is_set
      → acquire_lock redis l key w ≡ (true, u)
      → is_set (lock_key l key) u ≡ true
  unfolding acquire_lock
  acquire_lock-sets key w u laws e =
      let set = redis.set_nx (lock_key l key) (codes "locked") l.ttl w in
      (laws.sets (lock_key l key) (codes "locked") l.ttl w u (
        pair_eq set u (ap (λ r. r.1) e)
        ∙ ap (λ r. (r, u)) (acquired-eq-true set.0 (ap (λ r. r.0) e)))).1

  exclusive_while_set :
      (key : Text) (ops : List LockStep) (w v : W)
      → KeyLaws redis is_set
      → is_set (lock_key l key) w ≡ true
      → NotReleased key ops
      → Happens key ops w v
      → NoneAcquires key ops
  unfolding release_lock
  exclusive_while_set key [] w v laws h kept e = tt
  exclusive_while_set key (acquiring k b ∷ ops) w v laws h kept (u, e, more) = (
    λ same.
        acquire_lock-taken k b w u laws
          (subst (λ s. is_set (lock_key l s) w ≡ true) (sym ((text_eq_iff k key).0 same)) h) e,
    exclusive_while_set key ops u v laws (acquire_lock-keeps k (lock_key l key) b w u laws e h) kept
        more,
  )
  exclusive_while_set key (releasing k ∷ ops) w v laws h (other, kept) (u, err_text, e, more) =
      exclusive_while_set key ops u v laws
        (laws.dels (lock_key l k) w u err_text (lock_key l key) e (lock_key-text_eq l k key ∙ other)
          h)
        kept more
  exclusive_while_set key (passing ∷ ops) w v laws h kept (u, stays, more) =
      exclusive_while_set key ops u v laws (stays h) kept more

  -- When a lock is acquired, no attempt to acquire it succeeds afterwards, as long as nobody releases
  -- it and its time to live does not run out, whatever happens to other locks in between. Given what
  -- is documented of `SETNX` and `DEL`.
  pub acquire_lock-excludes :
      (key : Text) (ops : List LockStep) (w u v : W)
      → KeyLaws redis is_set
      → acquire_lock redis l key w ≡ (true, u)
      → NotReleased key ops
      → Happens key ops u v
      → NoneAcquires key ops
  acquire_lock-excludes key ops w u v laws e kept more =
      exclusive_while_set key ops u v laws (acquire_lock-sets key w u laws e) kept more
