-- ===== src/Redis/Queue.antt =====
-- pkg/queue/queue.go: the queue under a key. `json.Marshal` and `json.Unmarshal` of its items are
-- parameters.
use leartech_go_common.Base.{ℕ, Option, some, ◌++◌, Text, codes}
use leartech_go_common.Base.Results.{Result, ok, err}
use leartech_go_common.Redis.{Redis}

-- `json.Marshal` and `json.Unmarshal` at the type of the items.
pub record Json (T : Type 0) : Type 0 where
  pub marshal : T → Result Text Text
  pub unmarshal : Text → Result Text T

unfoldable pub unmarshalled : {T : Type 0} → Result Text T → Result Text T
unfolding codes
unmarshalled (ok value) = ok value
unmarshalled (err e) = err (codes "unmarshalling queue item: " ++ e)

unfoldable pub popped : {T : Type 0} → Json T → Result Text Text → Result Text T
unfolding unmarshalled
popped json (err e) = err e
popped json (ok data_text) = unmarshalled (json.unmarshal data_text)

module _ {W : Type 0} {T : Type 0} (redis : Redis W) (json : Json T) where
  unfoldable pub push_marshalled : Text → Result Text Text → W → Option Text × W
  unfolding codes
  push_marshalled key (ok data_text) w = redis.r_push key data_text w
  push_marshalled key (err e) w = (some (codes "marshalling queue item: " ++ e), w)

  -- `Push`
  unfoldable pub push : Text → T → W → Option Text × W
  unfolding push_marshalled
  push key value w = push_marshalled key (json.marshal value) w

  -- `Pop`
  unfoldable pub pop : Text → W → Result Text T × W
  unfolding popped
  pop key w = let (got, v) = redis.l_pop key w in (popped json got, v)

  -- `Len`
  unfoldable pub len : Text → W → Result Text ℕ × W
  len key w = redis.l_len key w
