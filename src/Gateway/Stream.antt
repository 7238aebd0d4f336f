-- ===== src/Gateway/Stream.antt =====
-- pkg/aigateway/stream.go and the usage of api.go: the frames of a streamed turn become chunks. The
-- JSON library is two parameters, `unmarshal`, with the error's text, and `valid`. `quote` is the verb
-- `%q`. The channel is the list of the chunks delivered so far: `accepts n` tells whether the receiver
-- takes chunk `n` or the context is done first.
pub mod Safety
pub mod Truncation
use leartech_go_common.Base.{
  ℕ, Bool, true, false, not, Option, none, some, List, [], ◌∷◌, ◌++◌, Text, codes, text_eq,
  has_prefix, length, drop, is_empty, ◌||◌, if◌then◌else◌,
}
use leartech_go_common.Base.Int.{ℤ}
use leartech_go_common.Base.Trim.{trim_space}
use leartech_go_common.Base.Results.{Result, ok, err, ◌>>=◌}

-- `Arguments` is the raw text.
pub record ToolCall : Type 0 where
  pub id : Text
  pub name : Text
  pub arguments : Text

pub record StreamErr : Type 0 where
  pub code : Text
  pub message : Text
  pub retryable : Bool

pub record LeartechCache : Type 0 where
  pub write_5m_tokens : ℤ
  pub write_1h_tokens : ℤ

-- `prompt_tokens_details` holds the one number of `PromptTokensDetails`.
pub record ChatUsage : Type 0 where
  pub prompt_tokens : ℤ
  pub completion_tokens : ℤ
  pub total_tokens : ℤ
  pub prompt_tokens_details : Option ℤ
  pub leartech_cache : Option LeartechCache

-- `StreamKind` with the field that each kind sets.
pub data StreamChunk : Type 0 where
  stream_text : Text → StreamChunk
  stream_reasoning : Text → StreamChunk
  stream_tool_call : ToolCall → StreamChunk
  stream_done : Text → StreamChunk
  stream_error : StreamErr → StreamChunk
  stream_usage : ChatUsage → StreamChunk

-- The first level of `sseFrame.Choices`, with its delta.
pub record Choice : Type 0 where
  pub content : Text
  pub reasoning_content : Text
  pub tool_calls : List ToolCall
  pub finish_reason : Text

pub record SseFrame : Type 0 where
  pub choices : List Choice
  pub error : Option StreamErr
  pub usage : Option ChatUsage

-- `StreamErr.Error`
unfoldable pub stream_err_text : StreamErr → Text
stream_err_text e = codes "gateway stream: " ++ (e.code ++ (codes ": " ++ e.message))

-- A part of the scan goes on with what was delivered, or the function that it stands in returns.
abbrev pub Scan : Type 0 → Type 0
Scan A = Result (A × List StreamChunk) (List StreamChunk)

unfoldable pub incomplete : (Text → Text) → ToolCall → StreamErr
incomplete quote tc = record {
  code = codes "tool_call_incomplete";
  message =
      codes "tool "
      ++ (quote tc.name
          ++ codes
              " arrived with arguments that are not complete JSON; the gateway reassembles, so this is a lost fragment rather than a bad model");
  retryable = false;
}

unfoldable pub malformed : Text → StreamErr
malformed e = record {
  code = codes "malformed_frame";
  message = codes "the gateway sent a frame this client cannot parse: " ++ e;
  retryable = false;
}

-- `strings.TrimPrefix(line, "data:")` of a line that has the prefix, trimmed.
unfoldable pub payload : Text → Option Text
unfolding has_prefix trim_space codes
payload raw =
    let line = trim_space raw in
    if is_empty line || not (has_prefix line (codes "data:"))
    then none
    else some (trim_space (drop 5 line))

-- How the loop over the lines ends: `return`, or with `sawDone`.
pub data LoopEnd : Type 0 where
  returned : LoopEnd
  ended : Bool → LoopEnd

unfoldable pub broken : Text → StreamErr
broken e = record { code = codes "stream_broken"; message = e; retryable = true }

unfoldable pub truncated : StreamErr
truncated = record {
  code = codes "stream_truncated";
  message = codes "the stream ended without [DONE]; the turn is incomplete";
  retryable = true;
}

-- The outcome of one line, with the loop over the lines after it.
next_line : Scan Bool → (List StreamChunk → LoopEnd × List StreamChunk) → LoopEnd × List StreamChunk
next_line (ok out) rest = rest out
next_line (err (true, out)) rest = rest out
next_line (err (false, out)) rest = (returned, out)

module _ (accepts : ℕ → Bool) where
  unfoldable pub send : StreamChunk → List StreamChunk → List StreamChunk × Bool
  send c out = if accepts (length out) then (out ++ c ∷ [], true) else (out, false)

  -- `if !send(…) { return false }`
  unfoldable pub send_or_stop : StreamChunk → List StreamChunk → Scan Bool
  unfolding send
  send_or_stop c out = let (out', took) = send c out in if took then ok out' else err (false, out')

  -- `return send(…)`
  unfoldable pub send_and_return : StreamChunk → List StreamChunk → Scan Bool
  unfolding send
  send_and_return c out = let (out', took) = send c out in err (took, out')

  unfoldable pub send_text : (Text → StreamChunk) → Text → List StreamChunk → Scan Bool
  unfolding send_or_stop
  send_text kind t out = if is_empty t then ok out else send_or_stop (kind t) out

  unfoldable pub emit_finish : Text → List StreamChunk → Scan Bool
  unfolding send_and_return
  emit_finish finish out =
      if is_empty finish then err (true, out) else send_and_return (stream_done finish) out

  -- The usage of a frame.
  unfoldable pub emit_usage : Option ChatUsage → List StreamChunk → Scan Bool
  unfolding send_or_stop
  emit_usage none out = ok out
  emit_usage (some u) out = send_or_stop (stream_usage u) out

module _ (quote : Text → Text) (valid : Text → Bool) (accepts : ℕ → Bool) where
  -- The loop over the tool calls of a delta.
  unfoldable pub emit_calls : List ToolCall → List StreamChunk → Scan Bool
  unfolding send_or_stop send_and_return incomplete
  emit_calls [] out = ok out
  emit_calls (tc ∷ tcs) out =
      if not (valid tc.arguments)
      then send_and_return accepts (stream_error (incomplete quote tc)) out
      else (send_or_stop accepts (stream_tool_call tc) out >>= emit_calls tcs)

  -- `emitDelta`: whether to go on, with what was delivered.
  unfoldable pub emit_delta : Choice → List StreamChunk → Scan Bool
  unfolding emit_calls send_text emit_finish
  emit_delta c out =
      emit_calls c.tool_calls out
      >>= send_text accepts stream_reasoning c.reasoning_content
      >>= send_text accepts stream_text c.content
      >>= emit_finish accepts c.finish_reason

  -- The first choice, if there is one: else `continue`.
  unfoldable pub emit_choices : List Choice → List StreamChunk → Scan Bool
  unfolding emit_delta
  emit_choices [] out = err (true, out)
  emit_choices (c ∷ cs) out = emit_delta c out

  -- What `scanSSE` does with a frame: whether the loop goes on.
  unfoldable pub emit_frame : Result Text SseFrame → List StreamChunk → Scan Bool
  unfolding send malformed emit_usage emit_choices
  emit_frame (err e) out = err (false, (send accepts (stream_error (malformed e)) out).0)
  emit_frame (ok f) out = elim f.error [
    | some e ↦ err (false, (send accepts (stream_error e) out).0)
    | none ↦ emit_usage accepts f.usage out >>= emit_choices f.choices
  ]

  module _ (unmarshal : Text → Result Text SseFrame) where
    -- The body of the loop, for the payload of a line, with the rest of the loop.
    unfoldable pub on_payload :
        Option Text
        → List StreamChunk
        → (List StreamChunk → LoopEnd × List StreamChunk)
        → LoopEnd × List StreamChunk
    unfolding next_line emit_frame codes
    on_payload none out rest = rest out
    on_payload (some p) out rest =
        if text_eq p (codes "[DONE]")
        then (ended true, out)
        else next_line (emit_frame (unmarshal p) out) rest

    unfoldable pub scan_lines : List Text → List StreamChunk → LoopEnd × List StreamChunk
    unfolding on_payload payload
    scan_lines [] out = (ended false, out)
    scan_lines (l ∷ ls) out = on_payload (payload l) out (scan_lines ls)

    -- What follows the loop, with `sc.Err()`.
    unfoldable pub finish_scan : Option Text → LoopEnd × List StreamChunk → List StreamChunk
    unfolding send broken truncated
    finish_scan e (returned, out) = out
    finish_scan (some e) (ended saw, out) = (send accepts (stream_error (broken e)) out).0
    finish_scan none (ended saw, out) =
        if not saw then (send accepts (stream_error truncated) out).0 else out

    -- `scanSSE`: the lines that the scanner gives, and the error that it ends with.
    unfoldable pub scan_sse : List Text → Option Text → List StreamChunk
    unfolding scan_lines finish_scan
    scan_sse lines e = finish_scan e (scan_lines lines [])
