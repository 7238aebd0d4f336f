-- ===== src/Agent/Compact/Greedy.antt =====
-- What `Compact` elides: the heaviest results first, while the conversation is too large.
use leartech_go_common.Base.{
  ℕ, zero, suc, ◌+◌, ◌≤◌, ◌<◌, ◌≡◌, refl, ap, Bool, true, false, ◌||◌, ◌⊎◌, inl, inr, List, [], ◌∷◌,
  Text, arith, length, is_empty, Bool-cases, take, if◌then◌else◌,
}
use leartech_go_common.Base.Int.{ℤ, pos, leb_ℤ}
use leartech_go_common.Agent.Loop.{Message}
use leartech_go_common.Agent.Compact.Weigh.{conversation_chars}
use leartech_go_common.Agent.Compact.Select.{eligible_tool_results, sort_heaviest, insert_heaviest}
use leartech_go_common.Agent.Compact.Passes.{
  Pass, elide_one, elide_results, args_round, elide_args, second_pass, default_compact_stub,
}
use leartech_go_common.Agent.Compact.Run.{CompactOptions, start_pass, shrink, compacted}
use leartech_go_common.Agent.Compact.Weight.{shrink-cur}
use mathlib.Core.Path.{subst}

-- The eliding of some indices, one after the other.
abbrev pub elide_all : Text → List ℕ → Pass → Pass
elide_all stub [] p = p
elide_all stub (i ∷ is) p = elide_all stub is (elide_one stub i p)

first_rounds :
    (target : ℤ) (stub : Text) (i : ℕ) (is : List ℕ) (p : Pass) (k : ℕ)
    → leb_ℤ p.cur target ≡ false
    → ((j : ℕ) → j < k → leb_ℤ (elide_all stub (take j is) (elide_one stub i p)).cur target ≡ false)
    → (j : ℕ) → j < suc k
    → leb_ℤ (elide_all stub (take j (i ∷ is)) p).cur target ≡ false
first_rounds target stub i is p k over later zero h = over
first_rounds target stub i is p k over later (suc j) h = later j (omega arith)

-- The first pass elides a first part of the given order. It elides nothing while the conversation
-- fits, so before each elision the conversation is larger than the target, and it stops before
-- the end only because the target is reached.
pub elide_results_greedy :
    (target : ℤ) (stub : Text) (is : List ℕ) (p : Pass)
    → (k : ℕ) × (elide_results target stub is p ≡ elide_all stub (take k is) p)
      × ((k ≡ length is) ⊎ (leb_ℤ (elide_results target stub is p).cur target ≡ true))
      × ((j : ℕ) → j < k → leb_ℤ (elide_all stub (take j is) p).cur target ≡ false)
unfolding elide_results
elide_results_greedy target stub [] p = (0, refl, inl refl, λ j h. absurd (omega arith))
elide_results_greedy target stub (i ∷ is) p =
    let (k, same, why, later) = elide_results_greedy target stub is (elide_one stub i p) in
    elim (Bool-cases (leb_ℤ p.cur target)) [
      | inl fits ↦ (0, rw fits, inr (rw fits fits), λ j h. absurd (omega arith))
      | inr over ↦ (
        suc k,
        rw over same,
        rw over (grind (arith, why)),
        first_rounds target stub i is p k over later,
      )
    ]

elided-elide_all :
    (stub : Text) (is : List ℕ) (p : Pass) → (elide_all stub is p).elided ≡ p.elided + length is
unfolding elide_one
elided-elide_all stub [] p = omega arith
elided-elide_all stub (i ∷ is) p = omega (arith, elided-elide_all stub is (elide_one stub i p))

take_all {ℓ} : {A : Type ℓ} (xs : List A) → take (length xs) xs ≡ xs
take_all [] = refl
take_all (x ∷ xs) = ap (λ r. x ∷ r) (take_all xs)

elide_results_all :
    (target : ℤ) (stub : Text) (is : List ℕ) (p : Pass)
    → (leb_ℤ (elide_results target stub is p).cur target ≡ true)
      ⊎ ((elide_results target stub is p).elided ≡ p.elided + length is)
elide_results_all target stub is p =
    let (k, same, why, over) = elide_results_greedy target stub is p in
    elim why [
      | inl all ↦ inr (rw (same, all, take_all is) (elided-elide_all stub is p))
      | inr fits ↦ inl fits
    ]

elided-elide_args :
    (target : ℤ) (ids : List Text) (ms : List Message) (cur : ℤ) (n : ℕ)
    → n ≤ (elide_args target ids ms cur n).2
unfolding elide_args
elided-elide_args target ids [] cur n = omega arith
elided-elide_args target ids (m ∷ ms) cur n =
    ground
      (arith, elided-elide_args target ids ms (args_round ids m cur n).1 (args_round ids m cur n).2)

second_pass_elided :
    (allowed : Bool) (target : ℤ) (p : Pass)
    → (p.elided ≤ (second_pass allowed target p).elided)
      × (leb_ℤ p.cur target ≡ true → second_pass allowed target p ≡ p)
unfolding second_pass
second_pass_elided allowed target p =
    ground (arith, elided-elide_args target p.elided_call_ids p.msgs p.cur p.elided)

length-insert_heaviest :
    (msgs : List Message) (i : ℕ) (js : List ℕ)
    → length (insert_heaviest msgs i js) ≡ suc (length js)
unfolding insert_heaviest
length-insert_heaviest msgs i [] = refl
length-insert_heaviest msgs i (j ∷ js) = ground (arith, length-insert_heaviest msgs i js)

length-sort_heaviest :
    (msgs : List Message) (is : List ℕ) → length (sort_heaviest msgs is) ≡ length is
unfolding sort_heaviest
length-sort_heaviest msgs [] = refl
length-sort_heaviest msgs (i ∷ is) =
    cc
      (length-insert_heaviest msgs i (sort_heaviest msgs is), ap suc (length-sort_heaviest msgs is))

shrink_fits_or_all :
    (opt : CompactOptions) (msgs : List Message)
    → (leb_ℤ (shrink opt msgs).cur opt.target_chars ≡ true)
      ⊎ (length (eligible_tool_results msgs opt.keep_head_turns opt.keep_tail_turns)
          ≤ (shrink opt msgs).elided)
unfolding shrink start_pass
shrink_fits_or_all opt msgs =
    let stub = if is_empty opt.stub then default_compact_stub else opt.stub in
    let eligible = eligible_tool_results msgs opt.keep_head_turns opt.keep_tail_turns in
    let order = sort_heaviest msgs eligible in
    let p = elide_results opt.target_chars stub order (start_pass msgs) in
    let (more, stays) = second_pass_elided opt.elide_tool_call_args opt.target_chars p in
    elim (elide_results_all opt.target_chars stub order (start_pass msgs)) [
      | inl fits ↦ inl (rw (stays fits) fits)
      | inr all ↦ inr (omega (arith, more, all, length-sort_heaviest msgs eligible))
    ]

-- Unless it says that the result fits, the report counts at least as many elisions as there are
-- eligible tool results.
pub fit_or_all :
    (opt : CompactOptions) (msgs : List Message)
    → ((compacted opt msgs).1.fit ≡ true)
      ⊎ (length (eligible_tool_results msgs opt.keep_head_turns opt.keep_tail_turns)
          ≤ (compacted opt msgs).1.elided)
unfolding compacted
fit_or_all opt msgs =
    let sized =
      subst
        (λ z.
          (leb_ℤ z opt.target_chars ≡ true)
          ⊎ (length (eligible_tool_results msgs opt.keep_head_turns opt.keep_tail_turns)
              ≤ (shrink opt msgs).elided))
        (shrink-cur opt msgs) (shrink_fits_or_all opt msgs) in
    elim (Bool-cases
      (leb_ℤ opt.target_chars (pos 0) || leb_ℤ (pos (conversation_chars msgs)) opt.target_chars)) [
        | inl fits ↦ inl (rw fits refl)
        | inr over ↦ rw over sized
      ]
