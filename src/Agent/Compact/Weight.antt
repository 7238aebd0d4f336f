-- ===== src/Agent/Compact/Weight.antt =====
-- The arithmetic of `Compact`: `cur` is at all times the size of the conversation that it edits.
use leartech_go_common.Base.{
  ℕ, zero, suc, ◌+◌, ◌≡◌, refl, ap, ◌∙◌, ◌∙◌, Bool, ◌&&◌, inl, inr, List, [], ◌∷◌, ◌++◌, Text,
  arith, codes, decimal, length, is_empty, Bool-cases, length-append, if◌then◌else◌,
}
use leartech_go_common.Base.Int.{
  ℤ, pos, pos_part, neg_part, ltb_ℤ, leb_ℤ, ◌-ℤ◌, int_laws, eq_of_parts,
}
use leartech_go_common.Agent.Loop.{ToolCall, Message}
use leartech_go_common.Agent.Compact.Weigh.{message_chars, calls_chars, conversation_chars}
use leartech_go_common.Agent.Compact.Select.{eligible_tool_results, sort_heaviest}
use leartech_go_common.Agent.Compact.Passes.{
  Pass, stub_result, stub_at, stub_calls, stub_call_args, elide_one, elide_results, args_round,
  elide_args, second_pass, default_compact_stub,
}
use leartech_go_common.Agent.Compact.Run.{CompactOptions, start_pass, shrink}

-- The size is what it was, less what was saved.
stub_at-chars :
    (stub : Text) (i : ℕ) (ms : List Message)
    → conversation_chars (stub_at stub i ms).0 + pos_part (stub_at stub i ms).1
      ≡ conversation_chars ms + neg_part (stub_at stub i ms).1
unfolding conversation_chars stub_at
stub_at-chars stub i [] = refl
stub_at-chars stub zero (m ∷ ms) = omega int_laws
stub_at-chars stub (suc i) (m ∷ ms) = omega (arith, stub_at-chars stub i ms)

saved_exactly : (x y : ℕ) (z : ℤ) → y + pos_part z ≡ x + neg_part z → pos x -ℤ z ≡ pos y
saved_exactly x y z h = eq_of_parts _ _ (omega int_laws)

abbrev IsExact : Pass → Type 0
IsExact p = p.cur ≡ pos (conversation_chars p.msgs)

elide_one-IsExact : (stub : Text) (i : ℕ) (p : Pass) → IsExact p → IsExact (elide_one stub i p)
unfolding elide_one
elide_one-IsExact stub i p h = rw h (saved_exactly _ _ _ (stub_at-chars stub i p.msgs))

elide_results-IsExact :
    (target : ℤ) (stub : Text) (is : List ℕ) (p : Pass)
    → IsExact p
    → IsExact (elide_results target stub is p)
unfolding elide_results
elide_results-IsExact target stub [] p h = h
elide_results-IsExact target stub (i ∷ is) p h = elim (Bool-cases (leb_ℤ p.cur target)) [
  | inl fits ↦ rw fits h
  | inr over ↦
      rw over
        (elide_results-IsExact target stub is (elide_one stub i p) (elide_one-IsExact stub i p h))
]

stub_calls-chars :
    (ids : List Text) (tcs : List ToolCall)
    → calls_chars (stub_calls ids tcs).0 + (stub_calls ids tcs).1 ≡ calls_chars tcs
unfolding calls_chars stub_calls
stub_calls-chars ids [] = omega arith
stub_calls-chars ids (tc ∷ tcs) = ground (arith, stub_calls-chars ids tcs)

stub_call_args-chars :
    (ids : List Text) (m : Message)
    → message_chars (stub_call_args ids m).0 + (stub_call_args ids m).1 ≡ message_chars m
unfolding message_chars stub_call_args
stub_call_args-chars ids m = ground (arith, stub_calls-chars ids m.tool_calls)

args_round-chars :
    (ids : List Text) (m : Message) (cur : ℤ) (n k : ℕ)
    → cur ≡ pos (message_chars m + k)
    → (args_round ids m cur n).1 ≡ pos (message_chars (args_round ids m cur n).0 + k)
unfolding args_round
args_round-chars ids m cur n k h =
    let cut =
      saved_exactly (message_chars m + k) (message_chars (stub_call_args ids m).0 + k)
        (pos (stub_call_args ids m).1) (omega (arith, stub_call_args-chars ids m)) in
    ground (arith, cut)

elide_args-chars :
    (target : ℤ) (ids : List Text) (ms : List Message) (cur : ℤ) (n k : ℕ)
    → cur ≡ pos (conversation_chars ms + k)
    → (elide_args target ids ms cur n).1
      ≡ pos (conversation_chars (elide_args target ids ms cur n).0 + k)
unfolding elide_args conversation_chars
elide_args-chars target ids [] cur n k h = h
elide_args-chars target ids (m ∷ ms) cur n k h =
    let r = args_round ids m cur n in
    let w = message_chars r.0 in
    let here =
      args_round-chars ids m cur n (conversation_chars ms + k) (h ∙ ap pos (omega arith)) in
    let later = elide_args-chars target ids ms r.1 r.2 (w + k) (here ∙ ap pos (omega arith)) in
    elim (Bool-cases (leb_ℤ cur target)) [
      | inl fits ↦ rw fits h
      | inr over ↦ rw over (later ∙ ap pos (omega arith))
    ]

second_pass-IsExact :
    (allowed : Bool) (target : ℤ) (p : Pass) → IsExact p → IsExact (second_pass allowed target p)
unfolding second_pass
second_pass-IsExact allowed target p h =
    let zero_more =
      elide_args-chars target p.elided_call_ids p.msgs p.cur p.elided 0
        (h ∙ ap pos (omega arith)) in
    elim (Bool-cases (allowed && ltb_ℤ target p.cur)) [
      | inl go ↦ rw go (zero_more ∙ ap pos (omega arith))
      | inr stop ↦ rw stop h
    ]

-- However the two passes go, the running size `cur`, by which `Compact` decides when to stop, is
-- in the end exactly the size of the messages that it leaves, also where a stub is longer than
-- the text that it replaces.
pub shrink-cur :
    (opt : CompactOptions) (msgs : List Message)
    → (shrink opt msgs).cur ≡ pos (conversation_chars (shrink opt msgs).msgs)
unfolding shrink start_pass
shrink-cur opt msgs =
    let stub = if is_empty opt.stub then default_compact_stub else opt.stub in
    let order =
      sort_heaviest msgs (eligible_tool_results msgs opt.keep_head_turns opt.keep_tail_turns) in
    second_pass-IsExact opt.elide_tool_call_args opt.target_chars _
      (elide_results-IsExact opt.target_chars stub order (start_pass msgs) refl)

-- Eliding a tool result takes away the length of its body and adds sixteen characters, the stub
-- and the digits of that length, also where that makes the message larger.
pub stub_result-chars :
    (stub : Text) (m : Message)
    → message_chars (stub_result stub m).0 + length m.content
      ≡ message_chars m + (length stub + (16 + length (decimal (length m.content))))
unfolding stub_result message_chars codes
stub_result-chars stub m =
    let n = decimal (length m.content) in
    omega (
      arith,
      length-append stub (codes " (" ++ (n ++ codes " chars elided)")),
      length-append (codes " (") (n ++ codes " chars elided)"),
      length-append n (codes " chars elided)"),
    )
