-- ===== src/Agent/Compact/Passes.antt =====
-- compact.go: the two passes, over results and over arguments.
use leartech_go_common.Base.{
  ℕ, zero, suc, ◌+◌, ◌-◌, Bool, not, ◌&&◌, ◌||◌, List, [], ◌∷◌, ◌++◌, Text, codes, text_eq,
  contains, decimal, length, is_empty, ltb, leb, if◌then◌else◌,
}
use leartech_go_common.Base.Int.{ℤ, pos, ltb_ℤ, leb_ℤ, ◌-ℤ◌}
use leartech_go_common.Agent.Loop.{ToolCall, Message}
use leartech_go_common.Agent.Compact.Weigh.{message_chars}

unfoldable pub default_compact_stub : Text
default_compact_stub = codes "[compacted: tool output elided to fit the context window]"

unfoldable pub compacted_args : Text
compacted_args = codes "{\"compacted\":\"arguments elided to fit the context window\"}"

-- The message with its body replaced, and the characters that this removed.
unfoldable pub stub_result : Text → Message → Message × ℤ
unfolding message_chars
stub_result stub m =
    let m' : Message = record m {
      content = stub ++ (codes " (" ++ (decimal (length m.content) ++ codes " chars elided)"));
    } in
    (m', pos (message_chars m) -ℤ pos (message_chars m'))

-- The loop of `stubCallArgs` over the calls, with `saved`.
unfoldable pub stub_calls : List Text → List ToolCall → List ToolCall × ℕ
stub_calls elided [] = ([], 0)
stub_calls elided (tc ∷ tcs) =
    let (rest, saved) = stub_calls elided tcs in
    if not (contains elided tc.id)
    then (tc ∷ rest, saved)
    else if leb (length tc.arguments) (length compacted_args)
    then (tc ∷ rest, saved)
    else (
      record tc { arguments = compacted_args } ∷ rest,
      length tc.arguments - length compacted_args + saved,
    )

unfoldable pub stub_call_args : List Text → Message → Message × ℕ
unfolding stub_calls
stub_call_args elided m =
    let (calls, saved) = stub_calls elided m.tool_calls in
    (if ltb 0 saved then record m { tool_calls = calls } else m, saved)

-- What the two passes carry: the messages, `cur`, the calls whose result is gone, the count.
pub record Pass : Type 0 where
  pub msgs : List Message
  pub cur : ℤ
  pub elided_call_ids : List Text
  pub elided : ℕ

-- `cur -= stubResult(&msgs[idx], stub)`, in the place of the message.
unfoldable pub stub_at : Text → ℕ → List Message → List Message × ℤ
unfolding stub_result
stub_at stub i [] = ([], pos 0)
stub_at stub zero (m ∷ ms) = let (m', saved) = stub_result stub m in (m' ∷ ms, saved)
stub_at stub (suc i) (m ∷ ms) = let (ms', saved) = stub_at stub i ms in (m ∷ ms', saved)

unfoldable pub call_id_at : List Message → ℕ → Text
call_id_at [] i = []
call_id_at (m ∷ ms) zero = m.tool_call_id
call_id_at (m ∷ ms) (suc i) = call_id_at ms i

-- One round of the first loop.
unfoldable pub elide_one : Text → ℕ → Pass → Pass
unfolding stub_at call_id_at
elide_one stub idx p =
    let (msgs, saved) = stub_at stub idx p.msgs in
    let id = call_id_at msgs idx in
    record {
      msgs = msgs;
      cur = p.cur -ℤ saved;
      elided_call_ids = if is_empty id then p.elided_call_ids else id ∷ p.elided_call_ids;
      elided = suc p.elided;
    }

unfoldable pub elide_results : ℤ → Text → List ℕ → Pass → Pass
unfolding elide_one
elide_results target stub [] p = p
elide_results target stub (idx ∷ rest) p =
    let more = elide_results target stub rest (elide_one stub idx p) in
    if leb_ℤ p.cur target then p else more

-- One round of the second loop past its `break`: a `continue` changes nothing.
unfoldable pub args_round : List Text → Message → ℤ → ℕ → Message × ℤ × ℕ
unfolding stub_call_args
args_round ids m cur elided =
    let (m', saved) = stub_call_args ids m in
    if not (text_eq m.role (codes "assistant")) || is_empty m.tool_calls
    then (m, cur, elided)
    else if ltb 0 saved
    then (m', cur -ℤ pos saved, suc elided)
    else (m, cur, elided)

-- The second loop, over the messages: they come back with `cur` and the count.
unfoldable pub elide_args : ℤ → List Text → List Message → ℤ → ℕ → List Message × ℤ × ℕ
unfolding args_round
elide_args target ids [] cur elided = ([], cur, elided)
elide_args target ids (m ∷ ms) cur elided =
    let (m', cur', n') = args_round ids m cur elided in
    let (ms', cur'', n'') = elide_args target ids ms cur' n' in
    if leb_ℤ cur target then (m ∷ ms, cur, elided) else (m' ∷ ms', cur'', n'')

unfoldable pub second_pass : Bool → ℤ → Pass → Pass
unfolding elide_args
second_pass allowed target p =
    if allowed && ltb_ℤ target p.cur
    then (let (msgs, cur, elided) = elide_args target p.elided_call_ids p.msgs p.cur p.elided in
        record p { msgs = msgs; cur = cur; elided = elided })
    else p
