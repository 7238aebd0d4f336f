-- ===== src/Examples/Streams.antt =====
-- pkg/aigateway/stream.go at concrete streams.
use leartech_go_common.Base.{
  text_eq, if◌then◌else◌, ℕ, ◌≡◌, refl, none, List, [], ◌∷◌, All, codes, Text, Bool, true,
}
use leartech_go_common.Base.Results.{Result, ok}
use leartech_go_common.Gateway.Stream.{
  StreamChunk, stream_text, stream_reasoning, stream_tool_call, stream_done, stream_error,
  stream_usage, SseFrame, ToolCall, payload, scan_sse,
}
use leartech_go_common.Gateway.Stream.Safety.{IsRunnable, scan_sse-Runnable}
use leartech_go_common.Gateway.Stream.Truncation.{ends_in_error, scan_sse-truncated}

-- A frame that asks for a tool, with its reason to finish, and a connection that ends after it.
abbrev wanted : ToolCall
wanted = record { id = codes "1"; name = codes "read_file"; arguments = codes "{}" }

abbrev cut : ToolCall
cut = record { id = codes "2"; name = codes "read_file"; arguments = codes "{" }

abbrev frame_of : ToolCall → SseFrame
frame_of c = record {
  choices =
      record {
        content = [];
        reasoning_content = [];
        tool_calls = c ∷ [];
        finish_reason = codes "tool_calls";
      }
      ∷ [];
  error = none;
  usage = none;
}

abbrev decode : Text → Result Text SseFrame
decode p = if text_eq p (codes "1") then ok (frame_of wanted) else ok (frame_of cut)

-- The two texts that these frames have for arguments.
abbrev complete : Text → Bool
complete t = text_eq t (codes "{}")

abbrev lines_read : List Text
lines_read = codes "data: 1" ∷ [] ∷ codes "data: 2" ∷ []

scan_sse-Runnable_example :
    All
      (IsRunnable (λ t. t) complete (λ n. true))
      (scan_sse (λ t. t) complete (λ n. true) decode lines_read none)
scan_sse-Runnable_example = scan_sse-Runnable (λ t. t) complete (λ n. true) decode lines_read none

scan_sse-truncated_example :
    ends_in_error (scan_sse (λ t. t) complete (λ n. true) decode lines_read none) ≡ true
unfolding payload
scan_sse-truncated_example =
    scan_sse-truncated (λ t. t) complete decode lines_read none (cc, (cc, (cc, tt)))

abbrev kinds : List StreamChunk → List ℕ
kinds [] = []
kinds (stream_text t ∷ cs) = 0 ∷ kinds cs
kinds (stream_reasoning t ∷ cs) = 1 ∷ kinds cs
kinds (stream_tool_call c ∷ cs) = 2 ∷ kinds cs
kinds (stream_done f ∷ cs) = 3 ∷ kinds cs
kinds (stream_error e ∷ cs) = 4 ∷ kinds cs
kinds (stream_usage u ∷ cs) = 5 ∷ kinds cs

-- A turn that ends, and then fails: a call, its end, and the error of the truncated stream.
broken_turn :
    kinds (scan_sse (λ t. t) complete (λ n. true) decode (codes "data: 1" ∷ []) none)
    ≡ 2 ∷ 3 ∷ 4 ∷ []
unfolding scan_sse text_eq
broken_turn = refl

-- An incomplete call does not end the scan: what follows is delivered after its error.
after_incomplete :
    kinds
      (scan_sse (λ t. t) complete (λ n. true) decode (codes "data: 2" ∷ codes "data: 1" ∷ []) none)
    ≡ 4 ∷ 2 ∷ 3 ∷ 4 ∷ []
unfolding scan_sse text_eq
after_incomplete = refl
