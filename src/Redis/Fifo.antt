-- ===== src/Redis/Fifo.antt =====
-- pkg/queue/queue.go: the operations that succeed are those of a first-in, first-out queue.
use mathlib.Core.Path.{◌≡◌, refl, sym, ap, ◌∙◌, subst}
use leartech_go_common.Base.{ℕ, suc, Option, none, some, List, [], ◌∷◌, ◌++◌, Text, length}
use leartech_go_common.Base.Results.{Result, ok, err, ok-injective}
use leartech_go_common.Redis.{Redis}
use leartech_go_common.Redis.Queue.{Json, unmarshalled, popped, push_marshalled, push, pop, len}

-- An operation that has succeeded, with what it took or gave.
pub data QueueOp (T : Type 0) : Type 0 where
  pushing : T → QueueOp T
  popping : T → QueueOp T
  counting : ℕ → QueueOp T

-- What the operations of a first-in, first-out queue give, and what is left in it.
pub data Fifo {T : Type 0} : List T → List (QueueOp T) → List T → Type 0 where
  ended : (xs : List T) → Fifo xs [] xs
  push_back :
      {xs : List T} {x : T} {ops : List (QueueOp T)} {ys : List T}
      → Fifo (xs ++ x ∷ []) ops ys
      → Fifo xs (pushing x ∷ ops) ys
  pop_front :
      {xs : List T} {x : T} {ops : List (QueueOp T)} {ys : List T}
      → Fifo xs ops ys
      → Fifo (x ∷ xs) (popping x ∷ ops) ys
  count :
      {xs : List T} {n : ℕ} {ops : List (QueueOp T)} {ys : List T}
      → n ≡ length xs
      → Fifo xs ops ys
      → Fifo xs (counting n ∷ ops) ys

-- What is documented of the commands on lists: `RPUSH` appends at the end, `LPOP` takes the first
-- item, and `LLEN` counts. `items` is the list under a key.
pub record ListLaws {W : Type 0} (redis : Redis W) (items : Text → W → List Text) : Type 0 where
  pub pushes :
      (key d : Text) (w v : W)
      → redis.r_push key d w ≡ (none, v)
      → items key v ≡ items key w ++ d ∷ []
  pub pops :
      (key d : Text) (w v : W) → redis.l_pop key w ≡ (ok d, v) → items key w ≡ d ∷ items key v
  pub counts :
      (key : Text) (n : ℕ) (w v : W)
      → redis.l_len key w ≡ (ok n, v)
      → (n ≡ length (items key w)) × (items key v ≡ items key w)

-- `json.Unmarshal` gives back what `json.Marshal` was given.
abbrev pub ReadsBack : {T : Type 0} → Json T → Type 0
ReadsBack {T} json = (x : T) (d : Text) → json.marshal x ≡ ok d → json.unmarshal d ≡ ok x

some_text : {e : Text} → ◌≡◌ {A = Option Text} (some e) none → ⊥
some_text h = cc

pair_of : {A B : Type 0} {a a' : A} {b b' : B} → a ≡ a' → b ≡ b' → ◌≡◌ {A = A × B} (a, b) (a', b')
pair_of e f = cc

module _ {W : Type 0} {T : Type 0} (redis : Redis W) (json : Json T) where
  -- The operations succeed one after the other.
  abbrev pub Runs : Text → List (QueueOp T) → W → W → Type 0
  Runs key [] w v = w ≡ v
  Runs key (pushing x ∷ ops) w v =
      (u : W) × (push redis json key x w ≡ (none, u)) × Runs key ops u v
  Runs key (popping x ∷ ops) w v = (u : W) × (pop redis json key w ≡ (ok x, u)) × Runs key ops u v
  Runs key (counting n ∷ ops) w v = (u : W) × (len redis json key w ≡ (ok n, u)) × Runs key ops u v

  -- The texts are the items.
  abbrev pub Encoded : List T → List Text → Type 0
  Encoded [] [] = Unit
  Encoded [] (d ∷ ds) = ⊥
  Encoded (x ∷ xs) [] = ⊥
  Encoded (x ∷ xs) (d ∷ ds) = (json.marshal x ≡ ok d) × Encoded xs ds

  Encoded-snoc :
      (xs : List T) (ds : List Text) (x : T) (d : Text)
      → Encoded xs ds
      → json.marshal x ≡ ok d
      → Encoded (xs ++ x ∷ []) (ds ++ d ∷ [])
  Encoded-snoc [] [] x d h e = (e, tt)
  Encoded-snoc (y ∷ xs) (c ∷ ds) x d (h, hs) e = (h, Encoded-snoc xs ds x d hs e)
  Encoded-snoc [] (c ∷ ds) x d h e = absurd h
  Encoded-snoc (y ∷ xs) [] x d h e = absurd h

  length-Encoded : (xs : List T) (ds : List Text) → Encoded xs ds → length ds ≡ length xs
  length-Encoded [] [] h = refl
  length-Encoded (y ∷ xs) (c ∷ ds) (h, hs) = ap suc (length-Encoded xs ds hs)
  length-Encoded [] (c ∷ ds) h = absurd h
  length-Encoded (y ∷ xs) [] h = absurd h

  push_marshalled-eq-none :
      (key : Text) (m : Result Text Text) (w u : W)
      → push_marshalled redis json key m w ≡ (none, u)
      → (d : Text) × (m ≡ ok d) × (redis.r_push key d w ≡ (none, u))
  unfolding push_marshalled
  push_marshalled-eq-none key (ok d) w u h = (d, refl, h)
  push_marshalled-eq-none key (err e) w u h = absurd (some_text (ap (λ r. r.0) h))

  unmarshalled-eq-ok : (r : Result Text T) (x : T) → unmarshalled r ≡ ok x → r ≡ ok x
  unfolding unmarshalled
  unmarshalled-eq-ok (ok y) x h = ap ok (ok-injective h)
  unmarshalled-eq-ok (err e) x h = cc

  popped-eq-ok :
      (r : Result Text Text) (x : T)
      → popped json r ≡ ok x
      → (d : Text) × (r ≡ ok d) × (json.unmarshal d ≡ ok x)
  unfolding popped
  popped-eq-ok (ok d) x h = (d, refl, unmarshalled-eq-ok (json.unmarshal d) x h)
  popped-eq-ok (err e) x h = cc

  pop-eq-ok :
      (key : Text) (x : T) (w u : W)
      → pop redis json key w ≡ (ok x, u)
      → (d : Text) × (redis.l_pop key w ≡ (ok d, u)) × (json.unmarshal d ≡ ok x)
  unfolding pop
  pop-eq-ok key x w u h =
      let (d, got, decoded) = popped-eq-ok (redis.l_pop key w).0 x (ap (λ r. r.0) h) in
      (d, pair_of got (ap (λ r. r.1) h), decoded)

  -- The queue under a key behaves as a first-in, first-out queue: if the items of the list are the
  -- encodings of some values, then pushes, pops and lengths of that key that succeed one after the
  -- other give what such a queue of these values gives, and the list then holds the encodings of what
  -- is left in it. Given what is documented of Redis's lists, and that JSON reads back what it wrote.
  pub Runs-Fifo :
      (items : Text → W → List Text) (key : Text) (ops : List (QueueOp T)) (xs : List T) (w v : W)
      → ListLaws redis items
      → ReadsBack json
      → Encoded xs (items key w)
      → Runs key ops w v
      → (ys : List T) × Fifo xs ops ys × Encoded ys (items key v)
  unfolding push len
  Runs-Fifo items key [] xs w v laws round h e =
      (xs, ended xs, subst (λ u. Encoded xs (items key u)) e h)
  Runs-Fifo items key (pushing x ∷ ops) xs w v laws round h (u, e, more) =
      let (d, wrote, sent) = push_marshalled-eq-none key (json.marshal x) w u e in
      let (ys, fifo, left) =
        Runs-Fifo items key ops (xs ++ x ∷ []) u v laws round
          (subst (Encoded (xs ++ x ∷ [])) (sym (laws.pushes key d w u sent))
            (Encoded-snoc xs (items key w) x d h wrote))
          more in
      (ys, push_back fifo, left)
  Runs-Fifo items key (counting n ∷ ops) xs w v laws round h (u, e, more) =
      let (size, same) = laws.counts key n w u e in
      let (ys, fifo, left) =
        Runs-Fifo items key ops xs u v laws round (subst (Encoded xs) (sym same) h) more in
      (ys, count (size ∙ length-Encoded xs (items key w) h) fifo, left)
  Runs-Fifo items key (popping x ∷ ops) [] w v laws round h (u, e, more) =
      let (d, got, decoded) = pop-eq-ok key x w u e in
      absurd (subst (Encoded []) (laws.pops key d w u got) h)
  Runs-Fifo items key (popping x ∷ ops) (y ∷ xs) w v laws round h (u, e, more) =
      let (d, got, decoded) = pop-eq-ok key x w u e in
      let (wrote, rest) = subst (Encoded (y ∷ xs)) (laws.pops key d w u got) h in
      let same : y ≡ x = ok-injective (sym (round y d wrote) ∙ decoded) in
      let (ys, fifo, left) = Runs-Fifo items key ops xs u v laws round rest more in
      (ys, subst (λ z. Fifo (z ∷ xs) (popping x ∷ ops) ys) (sym same) (pop_front fifo), left)
