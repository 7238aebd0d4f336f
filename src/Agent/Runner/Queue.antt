-- ===== src/Agent/Runner/Queue.antt =====
-- What waits in the queue of `drive`, by the state of the loop, and what each action adds to it.
use leartech_go_common.Base.{
  ℕ, ◌+◌, ◌≡◌, refl, Bool, true, false, ◌&&◌, ◌||◌, Option, none, some, List, [], ◌∷◌, ◌++◌, map,
  arith, length, is_empty, leb, append-nil,
}
use leartech_go_common.Agent.Loop.{
  Loop, ToolCall, Message, Event, EventKind, user_input, model_text, model_reasoning,
  model_tool_call, model_done, model_error, tool_result, interrupt, budget_answer, Action,
  send_turn, run_tool, ask_to_continue, show_text, show_reasoning, show_error, await_input,
  show_truncated, show_note, State, idle, awaiting, running, asking,
}
use leartech_go_common.Agent.Loop.Budget.{runs}

-- An event that neither asks for a call nor starts an input.
abbrev pub keeps_calls : EventKind → Bool
keeps_calls model_tool_call = false
keeps_calls user_input = false
keeps_calls model_text = true
keeps_calls model_reasoning = true
keeps_calls model_done = true
keeps_calls model_error = true
keeps_calls tool_result = true
keeps_calls interrupt = true
keeps_calls budget_answer = true

abbrev pub no_calls : List Event → Bool
no_calls [] = true
no_calls (e ∷ q) = keeps_calls e.kind && no_calls q

-- One step of `calm`, over the rest of the queue.
abbrev pub calm_kind : EventKind → Bool → (Bool → Bool) → Bool → Bool
calm_kind model_tool_call b rest callless = rest false
calm_kind model_done true rest callless = rest true
calm_kind model_done false rest callless = callless
calm_kind model_error b rest callless = rest true
calm_kind interrupt b rest callless = rest true
calm_kind user_input b rest callless = false
calm_kind model_text b rest callless = rest b
calm_kind model_reasoning b rest callless = rest b
calm_kind tool_result b rest callless = rest b
calm_kind budget_answer b rest callless = rest b

-- No call follows an end of turn that finds calls pending. The flag tells that none is pending so far.
abbrev pub calm : List Event → Bool → Bool
calm [] b = true
calm (e ∷ q) b = calm_kind e.kind b (calm q) (no_calls q)

abbrev pub ends : EventKind → Bool
ends model_done = true
ends model_error = true
ends user_input = false
ends model_text = false
ends model_reasoning = false
ends model_tool_call = false
ends tool_result = false
ends interrupt = false
ends budget_answer = false

abbrev pub has_end : List Event → Bool
has_end [] = false
has_end (e ∷ q) = ends e.kind || has_end q

abbrev pub answers : EventKind → Bool
answers budget_answer = true
answers model_done = false
answers model_error = false
answers user_input = false
answers model_text = false
answers model_reasoning = false
answers model_tool_call = false
answers tool_result = false
answers interrupt = false

abbrev pub has_answer : List Event → Bool
has_answer [] = false
has_answer (e ∷ q) = answers e.kind || has_answer q

abbrev pub one_result : EventKind → Option ToolCall → ℕ
one_result tool_result (some c) = 1
one_result tool_result none = 0
one_result budget_answer c = 0
one_result model_done c = 0
one_result model_error c = 0
one_result user_input c = 0
one_result model_text c = 0
one_result model_reasoning c = 0
one_result model_tool_call c = 0
one_result interrupt c = 0

-- The tool results in a queue.
abbrev pub results : List Event → ℕ
results [] = 0
results (e ∷ q) = one_result e.kind e.tool_call + results q

-- What the queue holds, by the state of the loop: while the loop awaits a turn, an end of turn; while
-- tools run, a result for every pending call that has none; while the question is open, an answer.
abbrev pub live_at : State → Loop → List Event → Bool
live_at idle l q = calm q (is_empty l.pending)
live_at awaiting l q = calm q (is_empty l.pending) && has_end q
live_at running l q = no_calls q && leb (length l.pending) (length l.answered + results q)
live_at asking l q = no_calls q && has_answer q

abbrev pub live : Loop → List Event → Bool
live l q = live_at l.state l q

pub no_calls-append : (q es : List Event) → no_calls (q ++ es) ≡ (no_calls q && no_calls es)
no_calls-append [] es = refl
no_calls-append (e ∷ q) es = ground (arith, no_calls-append q es)

pub has_end-append : (q es : List Event) → has_end (q ++ es) ≡ (has_end q || has_end es)
has_end-append [] es = refl
has_end-append (e ∷ q) es = ground (arith, has_end-append q es)

pub has_answer-append : (q es : List Event) → has_answer (q ++ es) ≡ (has_answer q || has_answer es)
has_answer-append [] es = refl
has_answer-append (e ∷ q) es = ground (arith, has_answer-append q es)

pub results-append : (q es : List Event) → results (q ++ es) ≡ results q + results es
results-append [] es = omega arith
results-append (e ∷ q) es = omega (arith, results-append q es)

pub calm_of_no_calls : (q : List Event) (b : Bool) → no_calls q ≡ true → calm q b ≡ true
calm_of_no_calls [] b h = refl
calm_of_no_calls (e ∷ q) b h = ground (arith, calm_of_no_calls q true, calm_of_no_calls q false)

pub calm_weaken : (q : List Event) → calm q false ≡ true → calm q true ≡ true
calm_weaken [] h = refl
calm_weaken (e ∷ q) h = ground (arith, calm_weaken q, calm_of_no_calls q true)

-- Events without calls may follow.
pub calm-append :
    (q es : List Event) (b : Bool) → calm q b ≡ true → no_calls es ≡ true → calm (q ++ es) b ≡ true
calm-append [] es b h k = calm_of_no_calls es b k
calm-append (e ∷ q) es b h k =
    ground (arith, calm-append q es true, calm-append q es false, no_calls-append q es)

-- A turn may follow when no call is pending or waiting.
pub calm-append_turn :
    (q es : List Event) → no_calls q ≡ true → calm es true ≡ true → calm (q ++ es) true ≡ true
calm-append_turn [] es h k = k
calm-append_turn (e ∷ q) es h k = ground (arith, calm-append_turn q es)

-- The events of a queue, an end of turn for two.
abbrev pub heft : EventKind → ℕ
heft model_done = 2
heft model_error = 1
heft user_input = 1
heft model_text = 1
heft model_reasoning = 1
heft model_tool_call = 1
heft tool_result = 1
heft interrupt = 1
heft budget_answer = 1

abbrev pub weight : List Event → ℕ
weight [] = 0
weight (e ∷ q) = heft e.kind + weight q

pub weight-append : (q es : List Event) → weight (q ++ es) ≡ weight q + weight es
weight-append [] es = omega arith
weight-append (e ∷ q) es = omega (arith, weight-append q es)

-- What a turn puts into the queue.
abbrev pub IsTurn : List Event → Type 0
IsTurn es = (calm es true ≡ true) × (calm es false ≡ true) × (has_end es ≡ true)

-- What carrying out one action puts into the queue.
abbrev pub Queued : Action → List Event → Type 0
Queued (run_tool c) es = (no_calls es ≡ true) × (results es ≡ 1)
Queued (ask_to_continue n u m) es =
    (no_calls es ≡ true) × (results es ≡ 0) × (has_answer es ≡ true) × (weight es ≡ 1)
Queued (send_turn ms) es = IsTurn es
Queued (show_text t) es = es ≡ []
Queued (show_reasoning t) es = es ≡ []
Queued (show_error e) es = es ≡ []
Queued await_input es = es ≡ []
Queued (show_truncated t) es = es ≡ []
Queued (show_note t) es = es ≡ []

-- The same for the actions of one step.
abbrev pub Added : List Action → List Event → Type 0
Added [] es = es ≡ []
Added (a ∷ out) es =
    (fs : List Event) × (gs : List Event) × (es ≡ fs ++ gs) × Queued a fs × Added out gs

abbrev pub sends : List Action → Bool
sends [] = false
sends (send_turn ms ∷ out) = true
sends (_ ∷ out) = sends out

abbrev pub asks : List Action → Bool
asks [] = false
asks (ask_to_continue n u m ∷ out) = true
asks (_ ∷ out) = asks out

-- Actions that send no turn add no call, a result for each tool they run, and an answer if they ask.
unfoldable pub KeepsCalls : List Action → List Event → Type 0
KeepsCalls out es =
    (no_calls es ≡ true) × (results es ≡ runs out) × (asks out ≡ true → has_answer es ≡ true)

KeepsCalls-cons :
    (out : List Action) (es fs gs : List Event)
    → es ≡ fs ++ gs
    → fs ≡ []
    → KeepsCalls out gs
    → KeepsCalls out es
KeepsCalls-cons out es fs gs e blank h = rw (e, blank) h

pub Added-KeepsCalls :
    (out : List Action) (es : List Event) → Added out es → sends out ≡ false → KeepsCalls out es
unfolding KeepsCalls
Added-KeepsCalls [] es e h = rw e (refl, refl, λ k. cc)
Added-KeepsCalls (send_turn ms ∷ out) es (fs, gs, e, q, more) h = cc
Added-KeepsCalls (run_tool c ∷ out) es (fs, gs, e, (q, r), more) h =
    let (kept, same, asked) = Added-KeepsCalls out gs more h in
    rw e (
      ground (arith, no_calls-append fs gs, kept),
      omega (arith, results-append fs gs),
      λ k. ground (arith, has_answer-append fs gs, asked k),
    )
Added-KeepsCalls (ask_to_continue n u m ∷ out) es (fs, gs, e, (q, z, r, one), more) h =
    let (kept, same, asked) = Added-KeepsCalls out gs more h in
    rw e (
      ground (arith, no_calls-append fs gs, kept),
      omega (arith, results-append fs gs),
      λ k. ground (arith, has_answer-append fs gs),
    )
Added-KeepsCalls (show_text t ∷ out) es (fs, gs, e, blank, more) h =
    KeepsCalls-cons out es fs gs e blank (Added-KeepsCalls out gs more h)
Added-KeepsCalls (show_reasoning t ∷ out) es (fs, gs, e, blank, more) h =
    KeepsCalls-cons out es fs gs e blank (Added-KeepsCalls out gs more h)
Added-KeepsCalls (show_error x ∷ out) es (fs, gs, e, blank, more) h =
    KeepsCalls-cons out es fs gs e blank (Added-KeepsCalls out gs more h)
Added-KeepsCalls (await_input ∷ out) es (fs, gs, e, blank, more) h =
    KeepsCalls-cons out es fs gs e blank (Added-KeepsCalls out gs more h)
Added-KeepsCalls (show_truncated t ∷ out) es (fs, gs, e, blank, more) h =
    KeepsCalls-cons out es fs gs e blank (Added-KeepsCalls out gs more h)
Added-KeepsCalls (show_note t ∷ out) es (fs, gs, e, blank, more) h =
    KeepsCalls-cons out es fs gs e blank (Added-KeepsCalls out gs more h)

pub Added-IsTurn : (ms : List Message) (es : List Event) → Added (send_turn ms ∷ []) es → IsTurn es
Added-IsTurn ms es (fs, gs, e, q, blank) = rw (e, blank, append-nil fs) q

Added-nothing : (es : List Event) → Added [] es → es ≡ []
Added-nothing es e = e

pub runs_sends-map :
    (cs : List ToolCall) → (sends (map run_tool cs) ≡ false) × (asks (map run_tool cs) ≡ false)
runs_sends-map [] = (refl, refl)
runs_sends-map (c ∷ cs) = runs_sends-map cs

pub is_empty-snoc : (cs : List ToolCall) (c : ToolCall) → is_empty (cs ++ c ∷ []) ≡ false
is_empty-snoc [] c = refl
is_empty-snoc (d ∷ cs) c = refl
