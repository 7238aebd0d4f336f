-- ===== src/Gateway/Stream/Safety.antt =====
-- What reaches the receiver: no broken tool call, and no truncation that looks like an end.
use leartech_go_common.Base.{
  ℕ, Bool, true, false, Option, none, some, List, [], ◌∷◌, Text, codes, text_eq, length, is_empty,
  All, All-append, ◌≡◌, inl, inr, Bool-cases, Option-cases,
}
use leartech_go_common.Base.Results.{Result, ok, err, ◌>>=◌}
use leartech_go_common.Gateway.Stream.{
  ToolCall, ChatUsage, StreamChunk, stream_text, stream_reasoning, stream_tool_call, stream_done,
  stream_error, stream_usage, Choice, SseFrame, Scan, send, send_or_stop, send_and_return,
  send_text, incomplete, emit_calls, emit_finish, emit_delta, malformed, emit_usage, emit_choices,
  emit_frame, payload, LoopEnd, returned, ended, next_line, on_payload, scan_lines, broken,
  truncated, finish_scan, scan_sse,
}

module _ (quote : Text → Text) (valid : Text → Bool) (accepts : ℕ → Bool) where
  -- A chunk that hands out a tool call hands out complete arguments.
  abbrev pub IsRunnable : StreamChunk → Type 0
  IsRunnable (stream_tool_call tc) = valid tc.arguments ≡ true
  IsRunnable (stream_text t) = Unit
  IsRunnable (stream_reasoning t) = Unit
  IsRunnable (stream_done f) = Unit
  IsRunnable (stream_error e) = Unit
  IsRunnable (stream_usage u) = Unit

  -- What a scan has delivered, whichever way it goes on.
  abbrev Delivers : (List StreamChunk → Type 0) → Scan Bool → Type 0
  Delivers P (ok out) = P out
  Delivers P (err (b, out)) = P out

  Delivers->>= :
      (P : List StreamChunk → Type 0) (m : Scan Bool) (f : List StreamChunk → Scan Bool)
      → Delivers P m
      → ((out : List StreamChunk) → P out → Delivers P (f out))
      → Delivers P (m >>= f)
  Delivers->>= P (ok out) f h k = k out h
  Delivers->>= P (err (b, out)) f h k = h

  Runnable : List StreamChunk → Type 0
  Runnable out = All IsRunnable out

  send-Runnable :
      (c : StreamChunk) (out : List StreamChunk)
      → IsRunnable c
      → Runnable out
      → Runnable (send accepts c out).0
  unfolding send Runnable
  send-Runnable c out h hs = elim (Bool-cases (accepts (length out))) [
    | inl took ↦ rw took (All-append IsRunnable out (c ∷ []) hs (h, tt))
    | inr stop ↦ rw stop hs
  ]

  send_or_stop-Runnable :
      (c : StreamChunk) (out : List StreamChunk)
      → IsRunnable c
      → Runnable out
      → Delivers Runnable (send_or_stop accepts c out)
  unfolding send_or_stop
  send_or_stop-Runnable c out h hs = elim (Bool-cases (send accepts c out).1) [
    | inl took ↦ rw took (send-Runnable c out h hs)
    | inr stop ↦ rw stop (send-Runnable c out h hs)
  ]

  emit_calls-Runnable :
      (tcs : List ToolCall) (out : List StreamChunk)
      → Runnable out
      → Delivers Runnable (emit_calls quote valid accepts tcs out)
  unfolding emit_calls send_and_return
  emit_calls-Runnable [] out hs = hs
  emit_calls-Runnable (tc ∷ tcs) out hs = elim (Bool-cases (valid tc.arguments)) [
    | inl good ↦ rw good (
        Delivers->>= Runnable (send_or_stop accepts (stream_tool_call tc) out)
          (emit_calls quote valid accepts tcs)
          (send_or_stop-Runnable (stream_tool_call tc) out good hs) (emit_calls-Runnable tcs))
    | inr bad ↦ rw bad (send-Runnable (stream_error (incomplete quote tc)) out tt hs)
  ]

  send_text-Runnable :
      (kind : Text → StreamChunk) (t : Text) (out : List StreamChunk)
      → IsRunnable (kind t)
      → Runnable out
      → Delivers Runnable (send_text accepts kind t out)
  unfolding send_text
  send_text-Runnable kind t out h hs = elim (Bool-cases (is_empty t)) [
    | inl blank ↦ rw blank hs
    | inr filled ↦ rw filled (send_or_stop-Runnable (kind t) out h hs)
  ]

  emit_finish-Runnable :
      (f : Text) (out : List StreamChunk)
      → Runnable out
      → Delivers Runnable (emit_finish accepts f out)
  unfolding emit_finish send_and_return
  emit_finish-Runnable f out hs = elim (Bool-cases (is_empty f)) [
    | inl blank ↦ rw blank hs
    | inr filled ↦ rw filled (send-Runnable (stream_done f) out tt hs)
  ]

  emit_delta-Runnable :
      (c : Choice) (out : List StreamChunk)
      → Runnable out
      → Delivers Runnable (emit_delta quote valid accepts c out)
  unfolding emit_delta
  emit_delta-Runnable c out hs =
      Delivers->>= Runnable _ (emit_finish accepts c.finish_reason)
        (Delivers->>= Runnable _ (send_text accepts stream_text c.content)
          (Delivers->>= Runnable (emit_calls quote valid accepts c.tool_calls out)
            (send_text accepts stream_reasoning c.reasoning_content)
            (emit_calls-Runnable c.tool_calls out hs)
            (λ o h. send_text-Runnable stream_reasoning c.reasoning_content o tt h))
          (λ o h. send_text-Runnable stream_text c.content o tt h))
        (emit_finish-Runnable c.finish_reason)

  emit_choices-Runnable :
      (cs : List Choice) (out : List StreamChunk)
      → Runnable out
      → Delivers Runnable (emit_choices quote valid accepts cs out)
  unfolding emit_choices
  emit_choices-Runnable [] out hs = hs
  emit_choices-Runnable (c ∷ cs) out hs = emit_delta-Runnable c out hs

  emit_usage-Runnable :
      (u : Option ChatUsage) (out : List StreamChunk)
      → Runnable out
      → Delivers Runnable (emit_usage accepts u out)
  unfolding emit_usage
  emit_usage-Runnable none out hs = hs
  emit_usage-Runnable (some u) out hs = send_or_stop-Runnable (stream_usage u) out tt hs

  emit_frame-Runnable :
      (f : Result Text SseFrame) (out : List StreamChunk)
      → Runnable out
      → Delivers Runnable (emit_frame quote valid accepts f out)
  unfolding emit_frame
  emit_frame-Runnable (err e) out hs = send-Runnable (stream_error (malformed e)) out tt hs
  emit_frame-Runnable (ok f) out hs = elim (Option-cases f.error) [
    | inl none_set ↦ rw none_set (
        Delivers->>= Runnable _ (emit_choices quote valid accepts f.choices)
          (emit_usage-Runnable f.usage out hs) (emit_choices-Runnable f.choices))
    | inr (e, set) ↦ rw set (send-Runnable (stream_error e) out tt hs)
  ]

  next_line-Runnable :
      (m : Scan Bool) (rest : List StreamChunk → LoopEnd × List StreamChunk)
      → Delivers Runnable m
      → ((out : List StreamChunk) → Runnable out → Runnable (rest out).1)
      → Runnable (next_line m rest).1
  unfolding next_line
  next_line-Runnable (ok out) rest h k = k out h
  next_line-Runnable (err (true, out)) rest h k = k out h
  next_line-Runnable (err (false, out)) rest h k = h

  module _ (unmarshal : Text → Result Text SseFrame) where
    on_payload-Runnable :
        (p : Option Text) (out : List StreamChunk)
        (rest : List StreamChunk → LoopEnd × List StreamChunk)
        → Runnable out
        → ((o : List StreamChunk) → Runnable o → Runnable (rest o).1)
        → Runnable (on_payload quote valid accepts unmarshal p out rest).1
    unfolding on_payload
    on_payload-Runnable none out rest hs k = k out hs
    on_payload-Runnable (some p) out rest hs k = elim (Bool-cases (text_eq p (codes "[DONE]"))) [
      | inl last ↦ rw last hs
      | inr frame ↦ rw frame (
          next_line-Runnable (emit_frame quote valid accepts (unmarshal p) out) rest
            (emit_frame-Runnable (unmarshal p) out hs) k)
    ]

    scan_lines-Runnable :
        (ls : List Text) (out : List StreamChunk)
        → Runnable out
        → Runnable (scan_lines quote valid accepts unmarshal ls out).1
    unfolding scan_lines
    scan_lines-Runnable [] out hs = hs
    scan_lines-Runnable (l ∷ ls) out hs =
        on_payload-Runnable (payload l) out (scan_lines quote valid accepts unmarshal ls) hs
          (scan_lines-Runnable ls)

    finish_scan-Runnable :
        (e : Option Text) (end : LoopEnd) (out : List StreamChunk)
        → Runnable out
        → Runnable (finish_scan quote valid accepts unmarshal e (end, out))
    unfolding finish_scan
    finish_scan-Runnable e returned out hs = hs
    finish_scan-Runnable (some e) (ended saw) out hs =
        send-Runnable (stream_error (broken e)) out tt hs
    finish_scan-Runnable none (ended true) out hs = hs
    finish_scan-Runnable none (ended false) out hs =
        send-Runnable (stream_error truncated) out tt hs

    -- Whatever lines the gateway sends, however they decode and whenever the receiver stops, every tool
    -- call that is delivered has arguments that are complete JSON.
    pub scan_sse-Runnable :
        (lines : List Text) (e : Option Text)
        → All IsRunnable (scan_sse quote valid accepts unmarshal lines e)
    unfolding scan_sse Runnable
    scan_sse-Runnable lines e =
        finish_scan-Runnable e (scan_lines quote valid accepts unmarshal lines []).0
          (scan_lines quote valid accepts unmarshal lines []).1 (scan_lines-Runnable lines [] tt)
