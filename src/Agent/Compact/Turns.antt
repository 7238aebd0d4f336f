-- ===== src/Agent/Compact/Turns.antt =====
-- How many turns the two bounds of `Compact` protect, counted in user messages.
use Prim.Native.Nat.{min}
use leartech_go_common.Base.{
  ℕ, zero, suc, ◌+◌, ◌-◌, ◌≤◌, ◌<◌, ◌≡◌, refl, ap, ◌∙◌, ◌&&◌, List, [], ◌∷◌, text_eq, arith, codes,
  length, leb, ltb, if◌then◌else◌, get_or, Bool-cases, inl, inr,
}
use leartech_go_common.Base.Int.{ℤ, pos}
use leartech_go_common.Agent.Loop.{Message}
use leartech_go_common.Agent.Compact.Select.{head_end, tail_start, user_at}

-- The user messages at index `t` or after, in a conversation whose first index is `i`.
unfoldable pub users_from : ℕ → ℕ → List Message → ℕ
users_from t i [] = 0
users_from t i (m ∷ ms) =
    (if text_eq m.role (codes "user") && leb t i then 1 else 0) + users_from t (suc i) ms

-- The numbers of a list that are at least `t`.
at_least : ℕ → List ℕ → ℕ
at_least t [] = 0
at_least t (u ∷ us) = (if leb t u then 1 else 0) + at_least t us

users_from-at_least : (t i : ℕ) (ms : List Message) → users_from t i ms ≡ at_least t (user_at i ms)
unfolding users_from at_least user_at
users_from-at_least t i [] = refl
users_from-at_least t i (m ∷ ms) = ground (arith, users_from-at_least t (suc i) ms)

-- The numbers rise, from `b` on.
abbrev Rises : ℕ → List ℕ → Type 0
Rises b [] = Unit
Rises b (u ∷ us) = (b ≤ u) × Rises (suc u) us

Rises-le : (b c : ℕ) (us : List ℕ) → c ≤ b → Rises b us → Rises c us
Rises-le b c [] h r = tt
Rises-le b c (u ∷ us) h (r, rs) = (omega arith, rs)

user_at-Rises : (i : ℕ) (ms : List Message) → Rises i (user_at i ms)
unfolding user_at
user_at-Rises i [] = tt
user_at-Rises i (m ∷ ms) = elim (Bool-cases (text_eq m.role (codes "user"))) [
  | inl user ↦ rw user (omega arith, user_at-Rises (suc i) ms)
  | inr other ↦
      rw other (Rises-le (suc i) i (user_at (suc i) ms) (omega arith) (user_at-Rises (suc i) ms))
]

at_least_all : (t b : ℕ) (us : List ℕ) → t ≤ b → Rises b us → at_least t us ≡ length us
unfolding at_least
at_least_all t b [] h r = refl
at_least_all t b (u ∷ us) h (r, rs) = ground (arith, at_least_all t (suc u) us)

le-get_or : (b n d : ℕ) (us : List ℕ) → n < length us → Rises b us → b ≤ get_or us n d
le-get_or b n d [] h r = absurd (omega arith)
le-get_or b zero d (u ∷ us) h (r, rs) = r
le-get_or b (suc n) d (u ∷ us) h (r, rs) = omega (arith, le-get_or (suc u) n d us (omega arith) rs)

-- From the entry at `n` on there are as many entries as the list has from index `n` on.
at_least-get_or :
    (b n d : ℕ) (us : List ℕ)
    → n < length us
    → Rises b us
    → at_least (get_or us n d) us + n ≡ length us
unfolding at_least
at_least-get_or b n d [] h r = absurd (omega arith)
at_least-get_or b zero d (u ∷ us) h (r, rs) = ground (arith, at_least_all u (suc u) us)
at_least-get_or b (suc n) d (u ∷ us) h (r, rs) =
    let more = at_least-get_or (suc u) n d us (omega arith) rs in
    let above = le-get_or (suc u) n d us (omega arith) rs in ground (arith, more, above)

-- The entry that `tail_start` takes.
abbrev tail_entry : List ℕ → ℕ → ℕ → ℕ
tail_entry us d k =
    if ltb 0 (suc k + 0) && ltb 0 (length us)
    then get_or us (length us - (if ltb (length us) (suc k) then length us else suc k)) d
    else d

tail_entry_lem :
    (us : List ℕ) (d k : ℕ) → tail_entry us d k ≡ get_or us (length us - min (suc k) (length us)) d
tail_entry_lem [] d k = ground arith
tail_entry_lem (u ∷ us) d k = ground arith

last_entries :
    (us : List ℕ) (d k : ℕ) → Rises 0 us → at_least (tail_entry us d k) us ≡ min (suc k) (length us)
last_entries [] d k r = unfold at_least in omega arith
last_entries (u ∷ us) d k r =
    let n = length (u ∷ us) - min (suc k) (length (u ∷ us)) in
    let entries = at_least-get_or 0 n d (u ∷ us) (omega arith) r in
    ap (λ t. at_least t (u ∷ us)) (tail_entry_lem (u ∷ us) d k) ∙ omega (arith, entries)

users_total : (msgs : List Message) → users_from 0 0 msgs ≡ length (user_at 0 msgs)
users_total msgs =
    users_from-at_least 0 0 msgs
    ∙ at_least_all 0 0 (user_at 0 msgs) (omega arith) (user_at-Rises 0 msgs)

-- A positive number of tail turns is kept exactly: from the tail's start on there are that many
-- user messages, or all of them if there are fewer.
pub tail_start_turns :
    (msgs : List Message) (k : ℕ)
    → users_from (tail_start msgs (pos (suc k))) 0 msgs ≡ min (suc k) (users_from 0 0 msgs)
unfolding tail_start
tail_start_turns msgs k =
    let entries = last_entries (user_at 0 msgs) (length msgs) k (user_at-Rises 0 msgs) in
    rw (users_from-at_least (tail_start msgs (pos (suc k))) 0 msgs, users_total msgs) entries

-- A positive number of head turns that is smaller than the number of user messages is kept
-- exactly: that many user messages stand before the head's end.
pub head_end_turns :
    (msgs : List Message) (k : ℕ) (keep_tail : ℤ)
    → suc k < users_from 0 0 msgs
    → users_from (head_end msgs (pos (suc k)) keep_tail) 0 msgs + suc k ≡ users_from 0 0 msgs
head_end_turns msgs k keep_tail h =
    let fits : suc k < length (user_at 0 msgs) = rw users_total at h in
    let bound : head_end msgs (pos (suc k)) keep_tail ≡ get_or (user_at 0 msgs) (suc k) 0 =
      (unfold head_end in ground arith) in
    rw (bound, users_from-at_least, users_total msgs)
      (at_least-get_or 0 (suc k) 0 (user_at 0 msgs) fits (user_at-Rises 0 msgs))
