-- ===== src/Agent/Compact/Select.antt =====
-- compact.go: which messages may be elided, and in which order.
use leartech_go_common.Base.{
  ℕ, zero, suc, ◌-◌, Bool, not, ◌&&◌, ◌||◌, List, [], ◌∷◌, codes, text_eq, length, is_empty, get_or,
  ltb, leb, ◌==◌, if◌then◌else◌,
}
use leartech_go_common.Base.Int.{ℤ, pos, pos_part, ltb_ℤ}
use leartech_go_common.Agent.Loop.{Message}
use leartech_go_common.Agent.Compact.Weigh.{message_chars}

-- The indices from `i` on of the user messages.
unfoldable pub user_at : ℕ → List Message → List ℕ
user_at i [] = []
user_at i (m ∷ ms) =
    let rest = user_at (suc i) ms in if text_eq m.role (codes "user") then i ∷ rest else rest

unfoldable pub tail_start : List Message → ℤ → ℕ
unfolding user_at
tail_start msgs keep_tail =
    let users = user_at 0 msgs in
    if ltb_ℤ (pos 0) keep_tail && ltb 0 (length users)
    then (let k =
          if ltb (length users) (pos_part keep_tail) then length users else pos_part keep_tail in
        get_or users (length users - k) (length msgs))
    else length msgs

unfoldable pub head_end : List Message → ℤ → ℤ → ℕ
unfolding user_at tail_start
head_end msgs keep_head keep_tail =
    let users = user_at 0 msgs in
    if ltb_ℤ (pos 0) keep_head && ltb 0 (length users)
    then (if leb (length users) (pos_part keep_head)
        then tail_start msgs keep_tail
        else get_or users (pos_part keep_head) 0)
    else 0

-- The loop over the messages from index `i` on.
unfoldable pub collect : ℕ → ℕ → ℕ → List Message → List ℕ
collect head tail i [] = []
collect head tail i (m ∷ ms) =
    let rest = collect head tail (suc i) ms in
    if ltb i head || leb tail i
    then rest
    else if not (text_eq m.role (codes "tool"))
    then rest
    else if is_empty m.content
    then rest
    else i ∷ rest

unfoldable pub eligible_tool_results : List Message → ℤ → ℤ → List ℕ
unfolding collect head_end tail_start
eligible_tool_results msgs keep_head keep_tail =
    collect (head_end msgs keep_head keep_tail) (tail_start msgs keep_tail) 0 msgs

unfoldable pub chars_at : List Message → ℕ → ℕ
unfolding message_chars
chars_at [] i = 0
chars_at (m ∷ ms) zero = message_chars m
chars_at (m ∷ ms) (suc i) = chars_at ms i

-- The order of the sort: the heavier message first, and of two alike the earlier one.
unfoldable pub goes_first : List Message → ℕ → ℕ → Bool
unfolding chars_at
goes_first msgs i j =
    if chars_at msgs i == chars_at msgs j then ltb i j else ltb (chars_at msgs j) (chars_at msgs i)

-- `sort.SliceStable` as a stable insertion sort.
unfoldable pub insert_heaviest : List Message → ℕ → List ℕ → List ℕ
unfolding goes_first
insert_heaviest msgs i [] = i ∷ []
insert_heaviest msgs i (j ∷ js) =
    let rest = insert_heaviest msgs i js in if goes_first msgs j i then j ∷ rest else i ∷ j ∷ js

unfoldable pub sort_heaviest : List Message → List ℕ → List ℕ
unfolding insert_heaviest
sort_heaviest msgs [] = []
sort_heaviest msgs (i ∷ is) = insert_heaviest msgs i (sort_heaviest msgs is)
