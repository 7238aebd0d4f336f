-- ===== src/Agent/Compact/Eligible.antt =====
-- Which messages `Compact` may elide: tool results between two bounds, in any order.
use mathlib.Core.Path.{subst}
use leartech_go_common.Base.{
  ℕ, zero, suc, ◌-◌, ◌≤◌, ◌<◌, ◌≡◌, sym, true, false, ◌||◌, inl, inr, List, [], ◌∷◌, text_eq,
  text_eq_iff, arith, codes, is_empty, leb, ltb, Bool-cases, All,
}
use leartech_go_common.Base.Int.{ℤ}
use leartech_go_common.Agent.Loop.{Message}
use leartech_go_common.Agent.Compact.Select.{
  eligible_tool_results, sort_heaviest, insert_heaviest, collect, head_end, tail_start, goes_first,
}

-- The message at an index, if there is one, is a tool result.
abbrev pub ToolAt : List Message → ℕ → Type 0
ToolAt [] i = Unit
ToolAt (m ∷ ms) zero = m.role ≡ codes "tool"
ToolAt (m ∷ ms) (suc i) = ToolAt ms i

-- What `collect` gives, seen from index `i`: the index of a tool result between the two bounds.
abbrev pub IsCollected : ℕ → ℕ → ℕ → List Message → ℕ → Type 0
IsCollected head tail i ms j = (i ≤ j) × (head ≤ j) × (j < tail) × ToolAt ms (j - i)

IsCollected-later :
    (head tail i : ℕ) (m : Message) (ms : List Message) (js : List ℕ)
    → All (IsCollected head tail (suc i) ms) js
    → All (IsCollected head tail i (m ∷ ms)) js
IsCollected-later head tail i m ms [] h = tt
IsCollected-later head tail i m ms (j ∷ js) ((after, above, below, tool), hs) =
    let shift : j - i ≡ suc (j - suc i) = omega arith in
    (
      (omega arith, above, below, subst (ToolAt (m ∷ ms)) (sym shift) tool),
      IsCollected-later head tail i m ms js hs,
    )

IsCollected-here :
    (head tail i : ℕ) (m : Message) (ms : List Message)
    → (ltb i head || leb tail i) ≡ false
    → text_eq m.role (codes "tool") ≡ true
    → IsCollected head tail i (m ∷ ms) i
IsCollected-here head tail i m ms within tool =
    let start : i - i ≡ 0 = omega arith in
    (
      omega arith,
      ground arith,
      ground arith,
      subst (ToolAt (m ∷ ms)) (sym start) ((text_eq_iff m.role (codes "tool")).0 tool),
    )

collect-IsCollected :
    (head tail i : ℕ) (ms : List Message)
    → All (IsCollected head tail i ms) (collect head tail i ms)
unfolding collect
collect-IsCollected head tail i [] = tt
collect-IsCollected head tail i (m ∷ ms) =
    let rest = IsCollected-later head tail i m ms _ (collect-IsCollected head tail (suc i) ms) in
    elim (Bool-cases (ltb i head || leb tail i)) [
      | inl out ↦ rw out rest
      | inr within ↦ elim (Bool-cases (text_eq m.role (codes "tool"))) [
        | inr other ↦ rw (within, other) rest
        | inl tool ↦ elim (Bool-cases (is_empty m.content)) [
          | inl empty ↦ rw (within, tool, empty) rest
          | inr full ↦ rw (within, tool, full) (IsCollected-here head tail i m ms within tool, rest)
        ]
      ]
    ]

insert_heaviest-All :
    (P : ℕ → Type 0) (msgs : List Message) (i : ℕ) (js : List ℕ)
    → P i
    → All P js
    → All P (insert_heaviest msgs i js)
unfolding insert_heaviest
insert_heaviest-All P msgs i [] h hs = (h, tt)
insert_heaviest-All P msgs i (j ∷ js) h (k, ks) = elim (Bool-cases (goes_first msgs j i)) [
  | inl later ↦ rw later (k, insert_heaviest-All P msgs i js h ks)
  | inr here ↦ rw here (h, (k, ks))
]

pub sort_heaviest-All :
    (P : ℕ → Type 0) (msgs : List Message) (is : List ℕ) → All P is → All P (sort_heaviest msgs is)
unfolding sort_heaviest
sort_heaviest-All P msgs [] h = tt
sort_heaviest-All P msgs (i ∷ is) (h, hs) =
    insert_heaviest-All P msgs i (sort_heaviest msgs is) h (sort_heaviest-All P msgs is hs)

-- The order in which `Compact` elides holds only tool results between the two bounds.
pub order-IsCollected :
    (msgs : List Message) (keep_head keep_tail : ℤ)
    → All
        (IsCollected (head_end msgs keep_head keep_tail) (tail_start msgs keep_tail) 0 msgs)
        (sort_heaviest msgs (eligible_tool_results msgs keep_head keep_tail))
unfolding eligible_tool_results
order-IsCollected msgs keep_head keep_tail =
    sort_heaviest-All _ msgs _
      (collect-IsCollected (head_end msgs keep_head keep_tail) (tail_start msgs keep_tail) 0 msgs)
