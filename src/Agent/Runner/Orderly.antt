-- ===== src/Agent/Runner/Orderly.antt =====
-- What `send` makes of a stream that asks for no call after its end.
use mathlib.Core.Path.{subst}
use leartech_go_common.Base.{
  ◌≡◌, refl, sym, ◌∙◌, Bool, true, false, ◌||◌, inl, inr, List, [], ◌∷◌, ◌++◌, arith, Bool-cases,
  append-nil,
}
use leartech_go_common.Gateway.Stream.{
  StreamChunk, stream_text, stream_reasoning, stream_tool_call, stream_done, stream_error,
  stream_usage,
}
use leartech_go_common.Agent.Loop.{Event}
use leartech_go_common.Agent.Runner.Drive.{
  chunk_events, all_events, ends_the_turn, is_terminal, turn_events,
}
use leartech_go_common.Agent.Runner.Queue.{
  no_calls, calm, has_end, IsTurn, has_end-append, calm_of_no_calls,
}

abbrev pub no_call_chunks : List StreamChunk → Bool
no_call_chunks [] = true
no_call_chunks (stream_tool_call c ∷ cs) = false
no_call_chunks (stream_text t ∷ cs) = no_call_chunks cs
no_call_chunks (stream_reasoning t ∷ cs) = no_call_chunks cs
no_call_chunks (stream_done f ∷ cs) = no_call_chunks cs
no_call_chunks (stream_error e ∷ cs) = no_call_chunks cs
no_call_chunks (stream_usage u ∷ cs) = no_call_chunks cs

-- A stream that asks for no call after it has ended the turn.
abbrev pub orderly : List StreamChunk → Bool
orderly [] = true
orderly (stream_tool_call c ∷ cs) = orderly cs
orderly (stream_text t ∷ cs) = orderly cs
orderly (stream_reasoning t ∷ cs) = orderly cs
orderly (stream_done f ∷ cs) = no_call_chunks cs
orderly (stream_error e ∷ cs) = no_call_chunks cs
orderly (stream_usage u ∷ cs) = orderly cs

all_events-no_calls :
    (cs : List StreamChunk) (more : List Event)
    → no_call_chunks cs ≡ true
    → no_calls more ≡ true
    → no_calls (all_events cs ++ more) ≡ true
unfolding all_events chunk_events
all_events-no_calls [] more h k = k
all_events-no_calls (stream_tool_call c ∷ cs) more h k = cc
all_events-no_calls (stream_text t ∷ cs) more h k = all_events-no_calls cs more h k
all_events-no_calls (stream_reasoning t ∷ cs) more h k = all_events-no_calls cs more h k
all_events-no_calls (stream_done f ∷ cs) more h k = all_events-no_calls cs more h k
all_events-no_calls (stream_error e ∷ cs) more h k = all_events-no_calls cs more h k
all_events-no_calls (stream_usage u ∷ cs) more h k = all_events-no_calls cs more h k

all_events-calm :
    (cs : List StreamChunk) (more : List Event) (b : Bool)
    → orderly cs ≡ true
    → no_calls more ≡ true
    → calm (all_events cs ++ more) b ≡ true
unfolding all_events chunk_events
all_events-calm [] more b h k = calm_of_no_calls more b k
all_events-calm (stream_tool_call c ∷ cs) more b h k = all_events-calm cs more false h k
all_events-calm (stream_text t ∷ cs) more b h k = all_events-calm cs more b h k
all_events-calm (stream_reasoning t ∷ cs) more b h k = all_events-calm cs more b h k
all_events-calm (stream_done f ∷ cs) more true h k =
    calm_of_no_calls (all_events cs ++ more) true (all_events-no_calls cs more h k)
all_events-calm (stream_done f ∷ cs) more false h k = all_events-no_calls cs more h k
all_events-calm (stream_error e ∷ cs) more b h k =
    calm_of_no_calls (all_events cs ++ more) true (all_events-no_calls cs more h k)
all_events-calm (stream_usage u ∷ cs) more b h k = all_events-calm cs more b h k

ends_the_turn_lem : (es : List Event) → ends_the_turn es ≡ has_end es
unfolding ends_the_turn is_terminal
ends_the_turn_lem [] = refl
ends_the_turn_lem (e ∷ es) = ground (arith, ends_the_turn_lem es)

or_true : (b : Bool) → (b || true) ≡ true
or_true true = refl
or_true false = refl

-- What `send` makes of an orderly stream ends the turn, also where the stream did not.
pub turn_events-IsTurn : (cs : List StreamChunk) → orderly cs ≡ true → IsTurn (turn_events cs)
unfolding turn_events
turn_events-IsTurn cs h = elim (Bool-cases (ends_the_turn (all_events cs))) [
  | inl ended ↦ rw ended (
    subst (λ es. calm es true ≡ true) (append-nil (all_events cs))
        (all_events-calm cs [] true h refl),
    subst (λ es. calm es false ≡ true) (append-nil (all_events cs))
        (all_events-calm cs [] false h refl),
    sym (ends_the_turn_lem (all_events cs)) ∙ ended,
  )
  | inr open_end ↦ rw open_end (
    all_events-calm cs _ true h refl,
    all_events-calm cs _ false h refl,
    has_end-append (all_events cs) _ ∙ or_true (has_end (all_events cs)),
  )
]
