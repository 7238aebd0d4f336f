-- ===== src/Redis.antt =====
-- pkg/queue and pkg/lock over a Redis server. `W` is the state of the server and everything else, the
-- commands of the Redis client are a parameter, and an error is its text. A time to live is a number
-- of nanoseconds.
pub mod Queue
pub mod Fifo
pub mod Lock
pub mod Exclusive
use leartech_go_common.Base.{ℕ, Bool, Option, Text}
use leartech_go_common.Base.Int.{ℤ}
use leartech_go_common.Base.Results.{Result}

-- `SETNX`, `DEL`, `RPUSH`, `LPOP` and `LLEN`, each with its key first.
pub record Redis (W : Type 0) : Type 0 where
  pub set_nx : Text → Text → ℤ → W → Result Text Bool × W
  pub del : Text → W → Option Text × W
  pub r_push : Text → Text → W → Option Text × W
  pub l_pop : Text → W → Result Text Text × W
  pub l_len : Text → W → Result Text ℕ × W
