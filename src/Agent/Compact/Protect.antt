-- ===== src/Agent/Compact/Protect.antt =====
-- The protected turns: `Compact` changes no body before the head's end or from the tail's start on,
-- and these two bounds leave out the turns that the options ask for.
use leartech_go_common.Base.{
  ℕ, zero, suc, ◌≤◌, ◌<◌, ◌≡◌, ◌≢◌, refl, ap, ◌∙◌, Bool, ◌||◌, ◌⊎◌, inl, inr, List, [], ◌∷◌, Text,
  arith, is_empty, Bool-cases, if◌then◌else◌, All,
}
use leartech_go_common.Base.Int.{ℤ, pos, leb_ℤ}
use leartech_go_common.Agent.Loop.{Message}
use leartech_go_common.Agent.Compact.Eligible.{IsCollected, order-IsCollected}
use leartech_go_common.Agent.Compact.Weigh.{conversation_chars}
use leartech_go_common.Agent.Compact.Select.{
  eligible_tool_results, sort_heaviest, head_end, tail_start,
}
use leartech_go_common.Agent.Compact.Passes.{
  Pass, stub_at, stub_call_args, elide_one, elide_results, args_round, elide_args, second_pass,
  default_compact_stub,
}
use leartech_go_common.Agent.Compact.Run.{CompactOptions, start_pass, shrink, compacted}

-- The body of the message at an index, empty where there is none.
abbrev pub content_at : List Message → ℕ → Text
content_at [] j = []
content_at (m ∷ ms) zero = m.content
content_at (m ∷ ms) (suc j) = content_at ms j

content_at-stub_at :
    (stub : Text) (i j : ℕ) (ms : List Message)
    → j ≢ i
    → content_at (stub_at stub i ms).0 j ≡ content_at ms j
unfolding stub_at
content_at-stub_at stub i j [] h = refl
content_at-stub_at stub zero zero (m ∷ ms) h = absurd (h refl)
content_at-stub_at stub zero (suc j) (m ∷ ms) h = refl
content_at-stub_at stub (suc i) zero (m ∷ ms) h = refl
content_at-stub_at stub (suc i) (suc j) (m ∷ ms) h =
    content_at-stub_at stub i j ms (λ e. h (ap suc e))

content_at-elide_results :
    (target : ℤ) (stub : Text) (is : List ℕ) (p : Pass) (j : ℕ)
    → All (λ i. j ≢ i) is
    → content_at (elide_results target stub is p).msgs j ≡ content_at p.msgs j
unfolding elide_results elide_one
content_at-elide_results target stub [] p j h = refl
content_at-elide_results target stub (i ∷ is) p j (h, hs) = elim (Bool-cases (leb_ℤ p.cur target)) [
  | inl fits ↦ rw fits refl
  | inr over ↦ rw over (
      content_at-elide_results target stub is (elide_one stub i p) j hs
      ∙ content_at-stub_at stub i j p.msgs h)
]

args_round-content :
    (ids : List Text) (m : Message) (cur : ℤ) (n : ℕ)
    → (args_round ids m cur n).0.content ≡ m.content
unfolding args_round stub_call_args
args_round-content ids m cur n = ground arith

content_at-elide_args :
    (target : ℤ) (ids : List Text) (ms : List Message) (cur : ℤ) (n j : ℕ)
    → content_at (elide_args target ids ms cur n).0 j ≡ content_at ms j
unfolding elide_args
content_at-elide_args target ids [] cur n j = refl
content_at-elide_args target ids (m ∷ ms) cur n zero =
    ground (arith, args_round-content ids m cur n)
content_at-elide_args target ids (m ∷ ms) cur n (suc j) = ground (
  arith,
  content_at-elide_args target ids ms (args_round ids m cur n).1 (args_round ids m cur n).2 j,
)

content_at-second_pass :
    (allowed : Bool) (target : ℤ) (p : Pass) (j : ℕ)
    → content_at (second_pass allowed target p).msgs j ≡ content_at p.msgs j
unfolding second_pass
content_at-second_pass allowed target p j =
    ground (arith, content_at-elide_args target p.elided_call_ids p.msgs p.cur p.elided j)

collected_elsewhere :
    (head tail j : ℕ) (ms : List Message) (is : List ℕ)
    → (j < head) ⊎ (tail ≤ j)
    → All (IsCollected head tail 0 ms) is
    → All (λ i. j ≢ i) is
collected_elsewhere head tail j ms [] h c = tt
collected_elsewhere head tail j ms (i ∷ is) h ((_, above, below, _), cs) =
    (omega arith, collected_elsewhere head tail j ms is h cs)

shrink_protects :
    (opt : CompactOptions) (msgs : List Message) (j : ℕ)
    → (j < head_end msgs opt.keep_head_turns opt.keep_tail_turns)
      ⊎ (tail_start msgs opt.keep_tail_turns ≤ j)
    → content_at (shrink opt msgs).msgs j ≡ content_at msgs j
unfolding shrink start_pass
shrink_protects opt msgs j h =
    let stub = if is_empty opt.stub then default_compact_stub else opt.stub in
    let order =
      sort_heaviest msgs (eligible_tool_results msgs opt.keep_head_turns opt.keep_tail_turns) in
    let p = elide_results opt.target_chars stub order (start_pass msgs) in
    let away =
      collected_elsewhere _ _ j msgs order h
        (order-IsCollected msgs opt.keep_head_turns opt.keep_tail_turns) in
    content_at-second_pass opt.elide_tool_call_args opt.target_chars p j
    ∙ content_at-elide_results opt.target_chars stub order (start_pass msgs) j away

-- No message before the end of the protected head, or from the start of the protected tail on,
-- has its body changed.
pub compacted_protects :
    (opt : CompactOptions) (msgs : List Message) (j : ℕ)
    → (j < head_end msgs opt.keep_head_turns opt.keep_tail_turns)
      ⊎ (tail_start msgs opt.keep_tail_turns ≤ j)
    → content_at (compacted opt msgs).0 j ≡ content_at msgs j
unfolding compacted
compacted_protects opt msgs j h =
    elim (Bool-cases
      (leb_ℤ opt.target_chars (pos 0) || leb_ℤ (pos (conversation_chars msgs)) opt.target_chars)) [
        | inl fits ↦ rw fits refl
        | inr over ↦ rw over (shrink_protects opt msgs j h)
      ]
