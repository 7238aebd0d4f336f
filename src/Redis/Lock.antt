-- ===== src/Redis/Lock.antt =====
-- pkg/lock/lock.go: a lock is a key that is set when nobody has set it. The log line is left out.
use leartech_go_common.Base.{Bool, false, Option, ◌++◌, Text, codes, is_empty, if◌then◌else◌}
use leartech_go_common.Base.Int.{ℤ}
use leartech_go_common.Base.Results.{Result, ok, err}
use leartech_go_common.Redis.{Redis}

pub record RedisLock : Type 0 where
  pub ttl : ℤ
  pub prefix : Text

unfoldable pub lock_key : RedisLock → Text → Text
unfolding codes
lock_key l key = if is_empty l.prefix then key else l.prefix ++ (codes ":" ++ key)

unfoldable pub acquired : Result Text Bool → Bool
acquired (ok b) = b
acquired (err e) = false

module _ {W : Type 0} (redis : Redis W) (l : RedisLock) where
  unfoldable pub acquire_lock : Text → W → Bool × W
  unfolding lock_key acquired codes
  acquire_lock key w =
      let (got, v) = redis.set_nx (lock_key l key) (codes "locked") l.ttl w in (acquired got, v)

  unfoldable pub release_lock : Text → W → Option Text × W
  unfolding lock_key
  release_lock key w = redis.del (lock_key l key) w
