-- ===== src/Agent/Runner/Marks.antt =====
-- What `toWire` makes of a conversation.
use mathlib.Core.Path.{subst}
use leartech_go_common.Base.{
  Option-cases, inl, inr, ◌⊎◌, ℕ, suc, ◌+◌, ◌≤◌, ◌<◌, arith, ◌≡◌, ◌≢◌, refl, sym, ap, ◌∙◌, Bool,
  true, false, ◌||◌, Option, none, some, List, [], ◌∷◌, ◌++◌, map, Text, codes, text_eq, is_empty,
  if◌then◌else◌,
}
use leartech_go_common.Agent.Loop.{ToolCall, Message}
use leartech_go_common.Agent.Runner.Wire.{
  ContentBlock, ChatRequestMessage, last_markable_from, last_markable, is_mark, plain_message,
  marked_message, to_wire_from, to_wire,
}

-- What the model reads of a message, in whichever of the two shapes it stands.
abbrev pub block_texts : List ContentBlock → Text
block_texts [] = []
block_texts (b ∷ bs) = b.text ++ block_texts bs

abbrev pub wire_text : ChatRequestMessage → Text
wire_text m = m.content ++ block_texts m.blocks

-- The cache marks of a request.
abbrev pub block_marks : List ContentBlock → ℕ
block_marks [] = 0
block_marks (b ∷ bs) = (elim b.cache_control [ none ↦ 0 | some c ↦ 1 ]) + block_marks bs

abbrev pub marks : List ChatRequestMessage → ℕ
marks [] = 0
marks (m ∷ ms) = block_marks m.blocks + marks ms

abbrev markable : Message → Bool
markable m = if is_empty m.content || text_eq m.role (codes "tool") then false else true

abbrev pub any_markable : List Message → Bool
any_markable [] = false
any_markable (m ∷ ms) = markable m || any_markable ms

any_markable-none :
    (i : ℕ) (ms : List Message) → last_markable_from i ms ≡ none → any_markable ms ≡ false
unfolding last_markable_from
any_markable-none i [] h = refl
any_markable-none i (m ∷ ms) h = ground (arith, any_markable-none (suc i) ms)

last_markable_from-le :
    (i : ℕ) (ms : List Message) (j : ℕ) → last_markable_from i ms ≡ some j → i ≤ j
unfolding last_markable_from
last_markable_from-le i [] j h = cc
last_markable_from-le i (m ∷ ms) j h = ground (arith, last_markable_from-le (suc i) ms j)

last_markable_from-tail :
    (i j : ℕ) (m : Message) (ms : List Message)
    → last_markable_from (suc i) ms ≡ some j
    → last_markable_from i (m ∷ ms) ≡ some j
unfolding last_markable_from
last_markable_from-tail i j m ms h = rw h refl

blank_none : (i j : ℕ) → last_markable_from i [] ≢ some j
unfolding last_markable_from
blank_none i j h = cc

some-injective : {a b : ℕ} → Path (Option ℕ) (some a) (some b) → a ≡ b
some-injective h = cc

head_mark :
    (i j : ℕ) (m : Message) (ms : List Message)
    → last_markable_from (suc i) ms ≡ none
    → last_markable_from i (m ∷ ms) ≡ some j
    → (i ≡ j) × (markable m ≡ true)
unfolding last_markable_from
head_mark i j m ms last h = ground arith

module _ (render : List ToolCall → Text) where
  abbrev pub plains : List Message → List ChatRequestMessage
  plains ms = map (plain_message render) ms

  to_wire_from-none : (i : ℕ) (ms : List Message) → to_wire_from render none i ms ≡ plains ms
  unfolding to_wire_from is_mark
  to_wire_from-none i [] = refl
  to_wire_from-none i (m ∷ ms) = ap (λ r. plain_message render m ∷ r) (to_wire_from-none (suc i) ms)

  to_wire_from-past :
      (j i : ℕ) (ms : List Message) → j < i → to_wire_from render (some j) i ms ≡ plains ms
  unfolding to_wire_from is_mark
  to_wire_from-past j i [] h = refl
  to_wire_from-past j i (m ∷ ms) h = ground (arith, to_wire_from-past j (suc i) ms)

  -- The message with its content in one text block, which carries the cache mark.
  abbrev pub cached : Message → ChatRequestMessage
  cached m = record (plain_message render m) {
    content = [];
    blocks =
        record { kind = codes "text"; text = m.content; cache_control = some (codes "ephemeral") }
        ∷ [];
  }

  -- One message carries the mark, the last that can.
  abbrev pub MarkedOnce : List Message → List ChatRequestMessage → Type 0
  MarkedOnce ms out =
      (before : List Message) × (m : Message) × (after : List Message) × (ms ≡ before ++ m ∷ after)
      × (markable m ≡ true)
      × (any_markable after ≡ false)
      × (out ≡ plains before ++ cached m ∷ plains after)

  MarkedOnce-cons :
      (m : Message) (ms : List Message) (out : List ChatRequestMessage)
      → MarkedOnce ms out
      → MarkedOnce (m ∷ ms) (plain_message render m ∷ out)
  MarkedOnce-cons m ms out (before, x, after, e, k, a, o) =
      (m ∷ before, x, after, ap (λ r. m ∷ r) e, k, a, ap (λ r. plain_message render m ∷ r) o)

  to_wire_from-other :
      (j i : ℕ) (m : Message) (ms : List Message)
      → i < j
      → to_wire_from render (some j) i (m ∷ ms)
        ≡ plain_message render m ∷ to_wire_from render (some j) (suc i) ms
  unfolding to_wire_from is_mark
  to_wire_from-other j i m ms h = ground arith

  to_wire_from-here :
      (i : ℕ) (m : Message) (ms : List Message)
      → to_wire_from render (some i) i (m ∷ ms) ≡ cached m ∷ plains ms
  unfolding to_wire_from is_mark marked_message
  to_wire_from-here i m ms = ground (arith, to_wire_from-past i (suc i) ms)

  to_wire_from-MarkedOnce :
      (i j : ℕ) (ms : List Message)
      → last_markable_from i ms ≡ some j
      → MarkedOnce ms (to_wire_from render (some j) i ms)
  to_wire_from-MarkedOnce i j [] h = absurd (blank_none i j h)
  to_wire_from-MarkedOnce i j (m ∷ ms) h = elim (Option-cases (last_markable_from (suc i) ms)) [
    | inl last ↦
        let (same, k) = head_mark i j m ms last h in
        (
          [],
          m,
          ms,
          refl,
          k,
          any_markable-none (suc i) ms last,
          ap (λ n. to_wire_from render (some n) i (m ∷ ms)) (sym same) ∙ to_wire_from-here i m ms,
        )
    | inr (k, later) ↦
        let same : j ≡ k = some-injective (sym h ∙ last_markable_from-tail i k m ms later) in
        let past : suc i ≤ j =
          subst (λ n. suc i ≤ n) (sym same) (last_markable_from-le (suc i) ms k later) in
        subst (MarkedOnce (m ∷ ms)) (sym (to_wire_from-other j i m ms (omega arith))) (
          MarkedOnce-cons m ms (to_wire_from render (some j) (suc i) ms)
            (to_wire_from-MarkedOnce (suc i) j ms (later ∙ ap some (sym same))))
  ]

  -- `toWire` marks the last message that has a text and is no tool result, and that one only:
  -- its content stands in one text block with the cache mark `ephemeral`. It marks none where there is
  -- none, and puts every other message on the wire as it is.
  pub to_wire-MarkedOnce :
      (ms : List Message)
      → ((any_markable ms ≡ false) × (to_wire render ms ≡ plains ms))
        ⊎ MarkedOnce ms (to_wire render ms)
  unfolding to_wire last_markable
  to_wire-MarkedOnce ms = elim (Option-cases (last_markable_from 0 ms)) [
    | inl unmarked ↦ rw unmarked (inl (any_markable-none 0 ms unmarked, to_wire_from-none 0 ms))
    | inr (j, mark) ↦ rw mark (inr (to_wire_from-MarkedOnce 0 j ms mark))
  ]
