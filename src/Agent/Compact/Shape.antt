-- ===== src/Agent/Compact/Shape.antt =====
-- What `Compact` may change of a message, and where: the shape of the conversation stays.
use mathlib.Core.Path.{subst}
use leartech_go_common.Base.{
  ℕ, zero, suc, ◌-◌, ◌≡◌, refl, ◌∙◌, Bool, not, ◌&&◌, ◌||◌, ◌⊎◌, inl, inr, List, [], ◌∷◌, Text,
  text_eq, text_eq_iff, arith, codes, contains, length, is_empty, leb, ltb, Bool-cases,
  if◌then◌else◌, All,
}
use leartech_go_common.Base.Int.{ℤ, pos, ltb_ℤ, leb_ℤ}
use leartech_go_common.Agent.Loop.{ToolCall, Message}
use leartech_go_common.Agent.Compact.Eligible.{ToolAt, IsCollected, order-IsCollected}
use leartech_go_common.Agent.Compact.Weigh.{conversation_chars}
use leartech_go_common.Agent.Compact.Select.{eligible_tool_results, sort_heaviest}
use leartech_go_common.Agent.Compact.Passes.{
  Pass, stub_at, stub_calls, stub_call_args, compacted_args, elide_one, elide_results, args_round,
  elide_args, second_pass, default_compact_stub,
}
use leartech_go_common.Agent.Compact.Run.{CompactOptions, start_pass, shrink, compacted}

-- A call keeps its id and its name. Its arguments are kept, or are the short text for elided ones.
abbrev pub CallKept : ToolCall → ToolCall → Type 0
CallKept a b =
    (b.id ≡ a.id)
    × (b.name ≡ a.name)
    × ((b.arguments ≡ a.arguments) ⊎ (b.arguments ≡ compacted_args))

abbrev pub CallsKept : List ToolCall → List ToolCall → Type 0
CallsKept [] [] = Unit
CallsKept [] (b ∷ bs) = ⊥
CallsKept (a ∷ xs) [] = ⊥
CallsKept (a ∷ xs) (b ∷ bs) = CallKept a b × CallsKept xs bs

-- A message keeps its role and its id. Only a tool result may have another body, and only an
-- assistant's message other arguments in its calls.
pub record Trimmed (m m' : Message) : Type 0 where
  pub role : m'.role ≡ m.role
  pub id : m'.tool_call_id ≡ m.tool_call_id
  pub content : (m'.content ≡ m.content) ⊎ (m.role ≡ codes "tool")
  pub kept : CallsKept m.tool_calls m'.tool_calls
  pub calls : (m'.tool_calls ≡ m.tool_calls) ⊎ (m.role ≡ codes "assistant")

-- The same number of messages, each trimmed at most.
abbrev pub Trims : List Message → List Message → Type 0
Trims [] [] = Unit
Trims [] (b ∷ bs) = ⊥
Trims (a ∷ xs) [] = ⊥
Trims (a ∷ xs) (b ∷ bs) = Trimmed a b × Trims xs bs

CallsKept-refl : (cs : List ToolCall) → CallsKept cs cs
CallsKept-refl [] = tt
CallsKept-refl (c ∷ cs) = ((refl, refl, inl refl), CallsKept-refl cs)

CallsKept-trans : (xs bs cs : List ToolCall) → CallsKept xs bs → CallsKept bs cs → CallsKept xs cs
CallsKept-trans [] [] [] h k = tt
CallsKept-trans (a ∷ xs) (b ∷ bs) (c ∷ cs) (h, hs) (k, ks) =
    (ground arith, CallsKept-trans xs bs cs hs ks)
CallsKept-trans [] [] (c ∷ cs) h k = k
CallsKept-trans [] (b ∷ bs) cs h k = absurd h
CallsKept-trans (a ∷ xs) [] cs h k = absurd h
CallsKept-trans (a ∷ xs) (b ∷ bs) [] h k = k

Trimmed-refl : (m : Message) → Trimmed m m
Trimmed-refl m = record {
  role = refl;
  id = refl;
  content = inl refl;
  kept = CallsKept-refl m.tool_calls;
  calls = inl refl;
}

Trimmed-trans : (a b c : Message) → Trimmed a b → Trimmed b c → Trimmed a c
Trimmed-trans a b c h k = record {
  role = k.role ∙ h.role;
  id = k.id ∙ h.id;
  content = ground (arith, h.content, k.content, h.role);
  kept = CallsKept-trans a.tool_calls b.tool_calls c.tool_calls h.kept k.kept;
  calls = ground (arith, h.calls, k.calls, h.role);
}

Trims-refl : (ms : List Message) → Trims ms ms
Trims-refl [] = tt
Trims-refl (m ∷ ms) = (Trimmed-refl m, Trims-refl ms)

Trims-trans : (xs bs cs : List Message) → Trims xs bs → Trims bs cs → Trims xs cs
Trims-trans [] [] cs h k = k
Trims-trans [] (b ∷ bs) cs h k = absurd h
Trims-trans (a ∷ xs) [] cs h k = absurd h
Trims-trans (a ∷ xs) (b ∷ bs) [] h k = k
Trims-trans (a ∷ xs) (b ∷ bs) (c ∷ cs) (h, hs) (k, ks) =
    (Trimmed-trans a b c h k, Trims-trans xs bs cs hs ks)

stub_at-Trims :
    (stub : Text) (i : ℕ) (ms : List Message) → ToolAt ms i → Trims ms (stub_at stub i ms).0
unfolding stub_at
stub_at-Trims stub i [] h = tt
stub_at-Trims stub zero (m ∷ ms) h = (
  record {
    role = refl;
    id = refl;
    content = inr h;
    kept = CallsKept-refl m.tool_calls;
    calls = inl refl;
  },
  Trims-refl ms,
)
stub_at-Trims stub (suc i) (m ∷ ms) h = (Trimmed-refl m, stub_at-Trims stub i ms h)

ToolAt-Trims : (xs bs : List Message) (i : ℕ) → Trims xs bs → ToolAt xs i → ToolAt bs i
ToolAt-Trims [] [] i h t = tt
ToolAt-Trims [] (b ∷ bs) i h t = absurd h
ToolAt-Trims (a ∷ xs) [] i h t = tt
ToolAt-Trims (a ∷ xs) (b ∷ bs) zero (h, hs) t = h.role ∙ t
ToolAt-Trims (a ∷ xs) (b ∷ bs) (suc i) (h, hs) t = ToolAt-Trims xs bs i hs t

All-ToolAt-Trims :
    (xs bs : List Message) (is : List ℕ) → Trims xs bs → All (ToolAt xs) is → All (ToolAt bs) is
All-ToolAt-Trims xs bs [] h t = tt
All-ToolAt-Trims xs bs (i ∷ is) h (t, ts) =
    (ToolAt-Trims xs bs i h t, All-ToolAt-Trims xs bs is h ts)

elide_results-Trims :
    (target : ℤ) (stub : Text) (is : List ℕ) (p : Pass)
    → All (ToolAt p.msgs) is
    → Trims p.msgs (elide_results target stub is p).msgs
unfolding elide_results elide_one
elide_results-Trims target stub [] p h = Trims-refl p.msgs
elide_results-Trims target stub (i ∷ is) p (h, hs) =
    let first = stub_at-Trims stub i p.msgs h in
    let rest =
      elide_results-Trims target stub is (elide_one stub i p)
        (All-ToolAt-Trims p.msgs (stub_at stub i p.msgs).0 is first hs) in
    elim (Bool-cases (leb_ℤ p.cur target)) [
      | inl fits ↦ rw fits (Trims-refl p.msgs)
      | inr over ↦ rw over (Trims-trans p.msgs (stub_at stub i p.msgs).0 _ first rest)
    ]

stub_calls-kept : (ids : List Text) (tcs : List ToolCall) → CallsKept tcs (stub_calls ids tcs).0
unfolding stub_calls
stub_calls-kept ids [] = tt
stub_calls-kept ids (tc ∷ tcs) =
    let rest = stub_calls-kept ids tcs in
    elim (Bool-cases (contains ids tc.id)) [
      | inr out ↦ rw out ((refl, refl, inl refl), rest)
      | inl hit ↦ elim (Bool-cases (leb (length tc.arguments) (length compacted_args))) [
        | inl small ↦ rw (hit, small) ((refl, refl, inl refl), rest)
        | inr big ↦ rw (hit, big) ((refl, refl, inr refl), rest)
      ]
    ]

args_round-Trimmed :
    (ids : List Text) (m : Message) (cur : ℤ) (n : ℕ) → Trimmed m (args_round ids m cur n).0
unfolding args_round stub_call_args
args_round-Trimmed ids m cur n =
    let skip = not (text_eq m.role (codes "assistant")) || is_empty m.tool_calls in
    elim (Bool-cases skip) [
      | inl out ↦ rw out (Trimmed-refl m)
      | inr go ↦ elim (Bool-cases (ltb 0 (stub_calls ids m.tool_calls).1)) [
        | inl cut ↦
            rw (go, cut)
              (record {
                role = refl;
                id = refl;
                content = inl refl;
                kept = stub_calls-kept ids m.tool_calls;
                calls = inr (ground (arith, text_eq_iff m.role (codes "assistant")));
              })
        | inr none_cut ↦ rw (go, none_cut) (Trimmed-refl m)
      ]
    ]

elide_args-Trims :
    (target : ℤ) (ids : List Text) (ms : List Message) (cur : ℤ) (n : ℕ)
    → Trims ms (elide_args target ids ms cur n).0
unfolding elide_args
elide_args-Trims target ids [] cur n = tt
elide_args-Trims target ids (m ∷ ms) cur n =
    let r = args_round ids m cur n in
    let both : Trims (m ∷ ms) (r.0 ∷ (elide_args target ids ms r.1 r.2).0) =
      (args_round-Trimmed ids m cur n, elide_args-Trims target ids ms r.1 r.2) in
    elim (Bool-cases (leb_ℤ cur target)) [
      | inl fits ↦ rw fits (Trims-refl (m ∷ ms))
      | inr over ↦ rw over both
    ]

second_pass-Trims :
    (allowed : Bool) (target : ℤ) (p : Pass) → Trims p.msgs (second_pass allowed target p).msgs
unfolding second_pass
second_pass-Trims allowed target p = elim (Bool-cases (allowed && ltb_ℤ target p.cur)) [
  | inl go ↦ rw go (elide_args-Trims target p.elided_call_ids p.msgs p.cur p.elided)
  | inr stop ↦ rw stop (Trims-refl p.msgs)
]

collected-ToolAt :
    (head tail : ℕ) (ms : List Message) (js : List ℕ)
    → All (IsCollected head tail 0 ms) js
    → All (ToolAt ms) js
collected-ToolAt head tail ms [] h = tt
collected-ToolAt head tail ms (j ∷ js) (h, hs) =
    let start : j - 0 ≡ j = omega arith in
    (subst (ToolAt ms) start h.3, collected-ToolAt head tail ms js hs)

shrink-Trims : (opt : CompactOptions) (msgs : List Message) → Trims msgs (shrink opt msgs).msgs
unfolding shrink start_pass
shrink-Trims opt msgs =
    let stub = if is_empty opt.stub then default_compact_stub else opt.stub in
    let order =
      sort_heaviest msgs (eligible_tool_results msgs opt.keep_head_turns opt.keep_tail_turns) in
    let p = elide_results opt.target_chars stub order (start_pass msgs) in
    let tools =
      collected-ToolAt _ _ msgs order
        (order-IsCollected msgs opt.keep_head_turns opt.keep_tail_turns) in
    Trims-trans msgs p.msgs _
      (elide_results-Trims opt.target_chars stub order (start_pass msgs) tools)
      (second_pass-Trims opt.elide_tool_call_args opt.target_chars p)

-- Compaction keeps the shape of a conversation, whatever the options: the same number of messages
-- in the same order, each with its role, its call id and the ids and names of its calls. Only a
-- tool result may have another body, and only an assistant's calls other arguments, which then
-- are the fixed text for elided arguments.
pub compacted-Trims :
    (opt : CompactOptions) (msgs : List Message) → Trims msgs (compacted opt msgs).0
unfolding compacted
compacted-Trims opt msgs =
    elim (Bool-cases
      (leb_ℤ opt.target_chars (pos 0) || leb_ℤ (pos (conversation_chars msgs)) opt.target_chars)) [
        | inl fits ↦ rw fits (Trims-refl msgs)
        | inr over ↦ rw over (shrink-Trims opt msgs)
      ]
