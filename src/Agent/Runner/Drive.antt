-- ===== src/Agent/Runner/Drive.antt =====
-- runner.go: `drive`, with the I/O of each action. A part that fails makes `drive` return, with the
-- errors that were shown so far.
mod Turn
unfoldable pub use Turn.*
use leartech_go_common.Base.{
  ℕ, zero, suc, Bool, true, false, not, Option, none, some, List, [], ◌∷◌, ◌++◌, Text, codes,
  decimal, is_empty, length, text_eq, ◌==◌, if◌then◌else◌,
}
use leartech_go_common.Base.Int.{ℤ, pos, ltb_ℤ, show_int}
use leartech_go_common.Base.Results.{Result, ok, err, ◌>>=◌}
use leartech_go_common.Gateway.Stream.{
  StreamChunk, stream_text, stream_reasoning, stream_tool_call, stream_done, stream_error,
  stream_usage, stream_err_text,
}
use leartech_go_common.Agent.Loop.{
  Loop, ToolCall, Message, Err, budget_stop, other_error, Event, EventKind, model_text,
  model_reasoning, model_tool_call, model_done, model_error, tool_result, budget_answer, user_input,
  interrupt, Action, send_turn, run_tool, show_text, show_reasoning, show_error, await_input,
  show_truncated, show_note, ask_to_continue, State, step,
}
use leartech_go_common.Agent.Tools.{run, names}
use leartech_go_common.Agent.Runner.Wire.{ChatRequest, to_wire}
use leartech_go_common.Agent.Runner.Ports.{Ports}

pub data DriveError : Type 0 where
  context_done writing_answer writing_error writing : Err → DriveError

-- The variables of `drive`, and everything outside.
pub record Driving (W : Type 0) : Type 0 where
  pub queue : List Event
  pub failed : List (Option Err)
  pub needs_break : Bool
  pub world : W

abbrev pub Stop : Type 0 → Type 0
Stop W = (List (Option Err) × DriveError) × W

abbrev pub Driven : Type 0 → Type 0
Driven W = Result (Stop W) (Driving W)

module _ {W : Type 0} (ports : Ports W) where
  unfoldable pub on_outside : (W → W) → Driving W → Driving W
  on_outside f d = record d { world = f d.world }

  unfoldable pub enqueue : List Event → Driving W → Driving W
  enqueue es d = record d { queue = d.queue ++ es }

  -- `fmt.Fprint(r.Out, …)`, and its error wrapped.
  unfoldable pub said : (Err → DriveError) → Driving W → Option Err × W → Driven W
  said wrap d (none, w) = ok (record d { world = w })
  said wrap d (some e, w) = err ((d.failed, wrap e), w)

  unfoldable pub say : (Err → DriveError) → Text → Driving W → Driven W
  unfolding said
  say wrap t d = said wrap d (ports.write t d.world)

  -- `if needsBreak { … }`
  unfoldable pub break_if : Bool → Driving W → Driven W
  unfolding say
  break_if false d = ok d
  break_if true d = do d' ← say writing (0x0A ∷ []) d; ok (record d' { needs_break = false })

  unfoldable pub break_line : Driving W → Driven W
  unfolding break_if
  break_line d = break_if d.needs_break d

  -- `r.OnUsage` for each usage chunk, when it is set.
  unfoldable pub report_usage : List StreamChunk → W → W
  report_usage [] w = w
  report_usage (stream_usage u ∷ cs) w =
      report_usage cs (elim ports.on_usage [ none ↦ w | some f ↦ f u w ])
  report_usage (stream_text t ∷ cs) w = report_usage cs w
  report_usage (stream_reasoning t ∷ cs) w = report_usage cs w
  report_usage (stream_tool_call c ∷ cs) w = report_usage cs w
  report_usage (stream_done f ∷ cs) w = report_usage cs w
  report_usage (stream_error e ∷ cs) w = report_usage cs w

  unfoldable pub turn_request : List Message → ChatRequest
  unfolding to_wire names
  turn_request ms = record {
    model = ports.model;
    messages = to_wire ports.render_calls ms;
    max_tokens = ports.max_tokens;
    tools = if is_empty (names ports.tools) then [] else ports.encode_tools ports.tools;
  }

  unfoldable pub received : Result Err (List StreamChunk) → W → List Event × W
  unfolding turn_events report_usage
  received (err e) w = (record (blank_event model_error) { err = some e } ∷ [], w)
  received (ok cs) w = (turn_events cs, report_usage cs w)

  -- `send`
  unfoldable pub send_conversation : List Message → W → List Event × W
  unfolding turn_request received
  send_conversation ms w = let (r, w') = ports.chat_stream (turn_request ms) w in received r w'

  -- `runTool`
  unfoldable pub run_one : ToolCall → W → Event × W
  run_one call w =
      let ((out, good), w1) =
        run ports.quote ports.tools call.name call.arguments
          (ports.tool_started call.name call.arguments w) in
      let w2 = ports.tool_finished call.name good (length out) (if good then [] else out) w1 in
      let w3 = if is_empty (ports.links out) then w2 else ports.tool_links (ports.links out) w2 in
      (
        record (blank_event tool_result) { tool_call = some call; result = out; result_ok = good },
        ports.record_tool_result call.name good out w3,
      )

  unfoldable pub ask_grant : ℕ → ℕ → ℤ → W → ℤ × W
  ask_grant pending used budget w = elim ports.ask_continue [
    | none ↦ (pos 0, w)
    | some f ↦ f pending used budget w
  ]

  unfoldable pub grant_event : ℤ → Event
  grant_event grant = record (blank_event budget_answer) {
    allow = ltb_ℤ (pos 0) grant;
    grant = grant;
  }

  -- The `switch` on the kind of an action.
  unfoldable pub act : Action → Driving W → Driven W
  unfolding on_outside enqueue say break_line send_conversation run_one ask_grant grant_event
      ends_in_newline err_text truncation_warning
  act (show_text t) d = do
    d' ← say writing_answer t (on_outside ports.first_output d)
    ok (record d' { needs_break = if is_empty t then d'.needs_break else not (ends_in_newline t) })
  act (show_reasoning t) d = ok d
  act (show_error e) d =
      say writing_error (0x0A ∷ (err_text e ++ 0x0A ∷ []))
        (record (on_outside ports.first_output d) { failed = d.failed ++ e ∷ [] })
  act (ask_to_continue pending used budget) d = do
    d' ← break_line (on_outside ports.first_output d)
    let (grant, w) = ask_grant pending used budget d'.world
    ok (enqueue (grant_event grant ∷ []) (record d' { world = w }))
  act (show_truncated finish) d = ok (on_outside (ports.highlight (truncation_warning finish)) d)
  act (show_note t) d = ok (on_outside (λ w. ports.note t (ports.first_output w)) d)
  act await_input d = say writing (0x0A ∷ []) d
  act (run_tool call) d = do
    d' ← break_line (on_outside ports.first_output d)
    let (e, w) = run_one call d'.world
    ok (enqueue (e ∷ []) (record d' { world = w }))
  act (send_turn ms) d = do
    d' ← break_line d
    let (es, w) = send_conversation ms (ports.turn_started d'.world)
    ok (enqueue es (record d' { world = w }))

  -- `if err := ctx.Err(); err != nil { return … }`, with what follows it.
  unfoldable pub unless_done : Option Err → Driving W → Driven W → Driven W
  unless_done (some e) d rest = err ((d.failed, context_done e), d.world)
  unless_done none d rest = rest

  -- The loop over the actions, for the loop's state after the step.
  unfoldable pub carry_out : State → List Action → Driving W → Driven W
  unfolding unless_done act on_outside
  carry_out state [] d = ok d
  carry_out state (a ∷ out) d =
      unless_done (ports.context_err d.world) d
        (act a (on_outside (ports.record_action a state) d) >>= carry_out state out)

  -- The loop afterwards, with what the runner has, or how it stopped.
  abbrev pub DriveEnd : Type 0
  DriveEnd = Loop × Driven W

  unfoldable pub go_on :
      (List Event → Loop → Driving W → Option DriveEnd) → Loop → Driven W → Option DriveEnd
  go_on rest l (err s) = some (l, err s)
  go_on rest l (ok d) = rest d.queue l d

  -- The loop of `drive` over its queue, on fuel.
  unfoldable pub drive_on : ℕ → List Event → Loop → Driving W → Option DriveEnd
  unfolding go_on carry_out
  drive_on fuel [] l d = some (l, ok d)
  drive_on zero (e ∷ q) l d = none
  drive_on (suc fuel) (e ∷ q) l d =
      go_on (drive_on fuel) (step l e).0
        (carry_out (step l e).0.state (step l e).1 (record d { queue = q }))

  unfoldable pub drive : ℕ → Loop → Event → W → Option DriveEnd
  unfolding drive_on
  drive fuel l first w =
      drive_on fuel (first ∷ []) l
        (record { queue = first ∷ []; failed = []; needs_break = false; world = w })
