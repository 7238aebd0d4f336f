-- ===== src/Gateway/Stream/Truncation.antt =====
-- A stream that stops early ends in an error.
use leartech_go_common.Base.{
  ℕ, Bool, true, false, Option, none, some, List, [], ◌∷◌, ◌++◌, Text, codes, text_eq, is_empty,
  All, ◌≡◌, ◌≢◌, refl, inl, inr, Bool-cases, Option-cases, arith, text_eq_iff, ap,
}
use leartech_go_common.Base.Results.{Result, ok, err, ◌>>=◌}
use leartech_go_common.Gateway.Stream.{
  ToolCall, StreamChunk, stream_text, stream_reasoning, stream_tool_call, stream_done, stream_error,
  stream_usage, Choice, SseFrame, Scan, send, send_or_stop, send_and_return, send_text, emit_calls,
  emit_finish, emit_delta, emit_usage, emit_choices, emit_frame, payload, LoopEnd, returned, ended,
  next_line, on_payload, scan_lines, finish_scan, scan_sse, incomplete, malformed, broken,
  truncated, ChatUsage,
}

-- The last chunk is an error.
abbrev pub ends_in_error : List StreamChunk → Bool
ends_in_error [] = false
ends_in_error (stream_error e ∷ []) = true
ends_in_error (c ∷ []) = false
ends_in_error (c ∷ d ∷ out) = ends_in_error (d ∷ out)

ends_in_error-append :
    (out : List StreamChunk) (c : StreamChunk)
    → ends_in_error (c ∷ []) ≡ true
    → ends_in_error (out ++ c ∷ []) ≡ true
ends_in_error-append [] c h = h
ends_in_error-append (x ∷ []) c h = h
ends_in_error-append (x ∷ y ∷ out) c h = ends_in_error-append (y ∷ out) c h

-- The receiver takes every chunk.
abbrev pub takes_all : ℕ → Bool
takes_all n = true

-- A part that makes `scanSSE` return has sent an error last.
StopsInError : Scan Bool → Type 0
StopsInError (ok out) = Unit
StopsInError (err (true, out)) = Unit
StopsInError (err (false, out)) = ends_in_error out ≡ true

StopsInError->>= :
    (m : Scan Bool) (f : List StreamChunk → Scan Bool)
    → StopsInError m
    → ((out : List StreamChunk) → StopsInError (f out))
    → StopsInError (m >>= f)
StopsInError->>= (ok out) f h k = k out
StopsInError->>= (err (b, out)) f h k = h

send_or_stop-StopsInError :
    (c : StreamChunk) (out : List StreamChunk) → StopsInError (send_or_stop takes_all c out)
unfolding send_or_stop send StopsInError
send_or_stop-StopsInError c out = tt

send_and_return-StopsInError :
    (c : StreamChunk) (out : List StreamChunk) → StopsInError (send_and_return takes_all c out)
unfolding send_and_return send StopsInError
send_and_return-StopsInError c out = tt

send_text-StopsInError :
    (kind : Text → StreamChunk) (t : Text) (out : List StreamChunk)
    → StopsInError (send_text takes_all kind t out)
unfolding send_text StopsInError
send_text-StopsInError kind t out = elim (Bool-cases (is_empty t)) [
  | inl blank ↦ rw blank tt
  | inr filled ↦ rw filled (send_or_stop-StopsInError (kind t) out)
]

emit_finish-StopsInError :
    (f : Text) (out : List StreamChunk) → StopsInError (emit_finish takes_all f out)
unfolding emit_finish StopsInError
emit_finish-StopsInError f out = elim (Bool-cases (is_empty f)) [
  | inl blank ↦ rw blank tt
  | inr filled ↦ rw filled (send_and_return-StopsInError (stream_done f) out)
]

emit_usage-StopsInError :
    (u : Option ChatUsage) (out : List StreamChunk) → StopsInError (emit_usage takes_all u out)
unfolding emit_usage StopsInError
emit_usage-StopsInError none out = tt
emit_usage-StopsInError (some u) out = send_or_stop-StopsInError (stream_usage u) out

module _ (quote : Text → Text) (valid : Text → Bool) where
  emit_calls-StopsInError :
      (tcs : List ToolCall) (out : List StreamChunk)
      → StopsInError (emit_calls quote valid takes_all tcs out)
  unfolding emit_calls StopsInError
  emit_calls-StopsInError [] out = tt
  emit_calls-StopsInError (tc ∷ tcs) out = elim (Bool-cases (valid tc.arguments)) [
    | inl good ↦ rw good (
        StopsInError->>= (send_or_stop takes_all (stream_tool_call tc) out)
          (emit_calls quote valid takes_all tcs)
          (send_or_stop-StopsInError (stream_tool_call tc) out) (emit_calls-StopsInError tcs))
    | inr bad ↦ rw bad (send_and_return-StopsInError (stream_error (incomplete quote tc)) out)
  ]

  emit_delta-StopsInError :
      (c : Choice) (out : List StreamChunk) → StopsInError (emit_delta quote valid takes_all c out)
  unfolding emit_delta
  emit_delta-StopsInError c out =
      StopsInError->>= _ (emit_finish takes_all c.finish_reason)
        (StopsInError->>= _ (send_text takes_all stream_text c.content)
          (StopsInError->>= (emit_calls quote valid takes_all c.tool_calls out)
            (send_text takes_all stream_reasoning c.reasoning_content)
            (emit_calls-StopsInError c.tool_calls out)
            (send_text-StopsInError stream_reasoning c.reasoning_content))
          (send_text-StopsInError stream_text c.content))
        (emit_finish-StopsInError c.finish_reason)

  emit_choices-StopsInError :
      (cs : List Choice) (out : List StreamChunk)
      → StopsInError (emit_choices quote valid takes_all cs out)
  unfolding emit_choices StopsInError
  emit_choices-StopsInError [] out = tt
  emit_choices-StopsInError (c ∷ cs) out = emit_delta-StopsInError c out

  emit_frame-StopsInError :
      (f : Result Text SseFrame) (out : List StreamChunk)
      → StopsInError (emit_frame quote valid takes_all f out)
  unfolding emit_frame send StopsInError
  emit_frame-StopsInError (err e) out = ends_in_error-append out (stream_error (malformed e)) refl
  emit_frame-StopsInError (ok f) out = elim (Option-cases f.error) [
    | inl none_set ↦ rw none_set (
        StopsInError->>= _ (emit_choices quote valid takes_all f.choices)
          (emit_usage-StopsInError f.usage out) (emit_choices-StopsInError f.choices))
    | inr (e, set) ↦ rw set (ends_in_error-append out (stream_error e) refl)
  ]

  module _ (unmarshal : Text → Result Text SseFrame) where
    -- How the loop may end when no line is the end marker.
    EndsEarly : LoopEnd × List StreamChunk → Type 0
    EndsEarly (returned, out) = ends_in_error out ≡ true
    EndsEarly (ended false, out) = Unit
    EndsEarly (ended true, out) = ⊥

    next_line-EndsEarly :
        (m : Scan Bool) (rest : List StreamChunk → LoopEnd × List StreamChunk)
        → StopsInError m
        → ((out : List StreamChunk) → EndsEarly (rest out))
        → EndsEarly (next_line m rest)
    unfolding next_line StopsInError EndsEarly
    next_line-EndsEarly (ok out) rest h k = k out
    next_line-EndsEarly (err (true, out)) rest h k = k out
    next_line-EndsEarly (err (false, out)) rest h k = h

    on_payload-EndsEarly :
        (p : Option Text) (out : List StreamChunk)
        (rest : List StreamChunk → LoopEnd × List StreamChunk)
        → p ≢ some (codes "[DONE]")
        → ((o : List StreamChunk) → EndsEarly (rest o))
        → EndsEarly (on_payload quote valid takes_all unmarshal p out rest)
    unfolding on_payload
    on_payload-EndsEarly none out rest h k = k out
    on_payload-EndsEarly (some p) out rest h k = elim (Bool-cases (text_eq p (codes "[DONE]"))) [
      | inl last ↦ absurd (h (ap some (ground (arith, text_eq_iff p (codes "[DONE]")))))
      | inr frame ↦ rw frame (
          next_line-EndsEarly (emit_frame quote valid takes_all (unmarshal p) out) rest
            (emit_frame-StopsInError (unmarshal p) out) k)
    ]

    scan_lines-EndsEarly :
        (ls : List Text) (out : List StreamChunk)
        → All (λ l. payload l ≢ some (codes "[DONE]")) ls
        → EndsEarly (scan_lines quote valid takes_all unmarshal ls out)
    unfolding scan_lines EndsEarly
    scan_lines-EndsEarly [] out h = tt
    scan_lines-EndsEarly (l ∷ ls) out (h, hs) =
        on_payload-EndsEarly (payload l) out (scan_lines quote valid takes_all unmarshal ls) h
          (λ o. scan_lines-EndsEarly ls o hs)

    finish_scan-EndsEarly :
        (e : Option Text) (end : LoopEnd) (out : List StreamChunk)
        → EndsEarly (end, out)
        → ends_in_error (finish_scan quote valid takes_all unmarshal e (end, out)) ≡ true
    unfolding finish_scan send EndsEarly
    finish_scan-EndsEarly e returned out h = h
    finish_scan-EndsEarly (some e) (ended saw) out h =
        ends_in_error-append out (stream_error (broken e)) refl
    finish_scan-EndsEarly none (ended true) out h = elim h [ ]
    finish_scan-EndsEarly none (ended false) out h =
        ends_in_error-append out (stream_error truncated) refl

    -- A stream that never says the end marker, read by a receiver that takes every chunk, gives an
    -- error as its last chunk, however its lines decode and whether or not the connection broke.
    pub scan_sse-truncated :
        (lines : List Text) (e : Option Text)
        → All (λ l. payload l ≢ some (codes "[DONE]")) lines
        → ends_in_error (scan_sse quote valid takes_all unmarshal lines e) ≡ true
    unfolding scan_sse
    scan_sse-truncated lines e h =
        finish_scan-EndsEarly e (scan_lines quote valid takes_all unmarshal lines []).0
          (scan_lines quote valid takes_all unmarshal lines []).1 (scan_lines-EndsEarly lines [] h)
