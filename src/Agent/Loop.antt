-- ===== src/Agent/Loop.antt =====
-- pkg/agentloop/loop.go: the conversation as a state machine. A method that mutates `*Loop` returns
-- the new record with its actions. Actions are a data type with the fields that each kind carries.
pub mod Invariant
pub mod Budget
pub mod History
pub mod Turn
pub mod Orphan
use leartech_go_common.Base.{
  ℕ, ◌+◌, Bool, true, false, not, ◌||◌, Option, none, some, List, [], ◌∷◌, ◌++◌, map, Text, codes,
  text_eq, length, is_empty, ltb, if◌then◌else◌,
}
use leartech_go_common.Base.Int.{ℤ, pos, ltb_ℤ, add_int}

pub record ToolCall : Type 0 where
  pub id : Text
  pub name : Text
  pub arguments : Text

pub record Message : Type 0 where
  pub role : Text
  pub content : Text
  pub tool_call_id : Text
  pub tool_calls : List ToolCall

-- The errors that reach the loop or that it makes. `budget_stop n m` is the error that wraps
-- `ErrBudgetStop`, with the two numbers of its text.
pub data Err : Type 0 where
  budget_stop : ℕ → ℤ → Err
  other_error : Text → Err

pub data EventKind : Type 0 where
  user_input model_text model_reasoning model_tool_call model_done model_error : EventKind
  tool_result interrupt budget_answer : EventKind

pub record Event : Type 0 where
  pub kind : EventKind
  pub text : Text
  pub tool_call : Option ToolCall
  pub result : Text
  pub result_ok : Bool
  pub finish : Text
  pub err : Option Err
  pub allow : Bool
  pub grant : ℤ

pub data Action : Type 0 where
  send_turn : List Message → Action
  run_tool : ToolCall → Action
  show_text : Text → Action
  show_reasoning : Text → Action
  show_error : Option Err → Action
  await_input : Action
  show_truncated : Text → Action
  show_note : Text → Action
  ask_to_continue : ℕ → ℕ → ℤ → Action

pub data State : Type 0 where
  idle awaiting running asking : State

pub record Loop : Type 0 where
  pub state : State
  pub messages : List Message
  pub pending : List ToolCall
  pub answered : List Message
  pub max_tools : ℤ
  pub used : ℕ
  pub text_shown_this_turn : Bool
  pub budget : ℤ

abbrev pub text_message : Text → Text → Message
text_message role content = record {
  role = role;
  content = content;
  tool_call_id = [];
  tool_calls = [];
}

abbrev pub call_message : List ToolCall → Message
call_message calls = record {
  role = codes "assistant";
  content = [];
  tool_call_id = [];
  tool_calls = calls;
}

abbrev pub result_message : ToolCall → Text → Message
result_message call result = record {
  role = codes "tool";
  content = result;
  tool_call_id = call.id;
  tool_calls = [];
}

unfoldable pub new : Text → ℤ → Loop
new system max_tools = record {
  state = idle;
  messages = if is_empty system then [] else text_message (codes "system") system ∷ [];
  pending = [];
  answered = [];
  max_tools = max_tools;
  used = 0;
  text_shown_this_turn = false;
  budget = max_tools;
}

-- `conversation` copies the slice; a value needs no copy.
unfoldable pub conversation : Loop → List Message
conversation l = l.messages

unfoldable pub run_pending : Loop → Loop × List Action
run_pending l = (
  record l {
    messages = l.messages ++ call_message l.pending ∷ [];
    state = running;
    used = l.used + length l.pending;
  },
  map run_tool l.pending,
)

unfoldable pub silent_note : Text
silent_note = codes "the model ended the turn without a message"

-- The branch of `turnEnded` with nothing pending.
hand_back : Loop → Event → List Action
unfolding silent_note
hand_back l e =
    if text_eq e.finish (codes "length") || text_eq e.finish (codes "incomplete")
    then show_truncated e.finish ∷ await_input ∷ []
    else if not l.text_shown_this_turn
    then show_note silent_note ∷ await_input ∷ []
    else await_input ∷ []

unfoldable pub turn_ended : Loop → Event → Loop × List Action
unfolding run_pending hand_back
turn_ended l e =
    if is_empty l.pending
    then (record l { state = idle }, hand_back l e)
    else if ltb_ℤ l.max_tools (pos (l.used + length l.pending))
    then (record l { state = asking }, ask_to_continue (length l.pending) l.used l.max_tools ∷ [])
    else run_pending l

unfoldable pub granted : Loop → ℤ
granted l = if ltb_ℤ (pos 0) l.budget then l.budget else l.max_tools

abbrev pub clear : Loop → Loop
clear l = record l { state = idle; pending = []; answered = [] }

-- A budget answer while the question is outstanding.
unfoldable pub answer_asked : Loop → Event → Loop × List Action
unfolding granted run_pending
answer_asked l e =
    if not e.allow
    then (
      clear l,
      show_error (some (budget_stop (length l.pending) l.max_tools)) ∷ await_input ∷ [],
    )
    else run_pending (record l {
      max_tools =
          if ltb_ℤ (pos 0) e.grant
          then add_int l.max_tools e.grant
          else add_int l.max_tools (granted l);
    })

unfoldable pub budget_answered : State → Loop → Event → Loop × List Action
unfolding answer_asked
budget_answered asking l e = answer_asked l e
budget_answered idle l e = (l, [])
budget_answered awaiting l e = (l, [])
budget_answered running l e = (l, [])

unfoldable pub record_answer : Loop → ToolCall → Text → Loop × List Action
unfolding conversation
record_answer l call result =
    let answered = l.answered ++ result_message call result ∷ [] in
    if ltb (length answered) (length l.pending)
    then (record l { answered = answered }, [])
    else (let l' : Loop = record l {
      messages = l.messages ++ answered;
      pending = [];
      answered = [];
      state = awaiting;
    } in
        (l', send_turn (conversation l') ∷ []))

unfoldable pub tool_returned : State → Option ToolCall → Loop → Event → Loop × List Action
unfolding record_answer
tool_returned running (some call) l e = record_answer l call e.result
tool_returned running none l e = (l, [])
tool_returned idle c l e = (l, [])
tool_returned awaiting c l e = (l, [])
tool_returned asking c l e = (l, [])

unfoldable pub accept_input : State → Loop → Event → Loop × List Action
unfolding conversation
accept_input idle l e =
    let l' : Loop = record l {
      used = 0;
      text_shown_this_turn = false;
      messages = l.messages ++ text_message (codes "user") e.text ∷ [];
      state = awaiting;
    } in
    (l', send_turn (conversation l') ∷ [])
accept_input awaiting l e = (l, [])
accept_input running l e = (l, [])
accept_input asking l e = (l, [])

unfoldable pub queue_call : Option ToolCall → Loop → Loop × List Action
queue_call none l = (l, [])
queue_call (some call) l = (record l { pending = l.pending ++ call ∷ [] }, [])

unfoldable pub step_kind : EventKind → Loop → Event → Loop × List Action
unfolding accept_input queue_call turn_ended tool_returned budget_answered
step_kind user_input l e = accept_input l.state l e
step_kind model_text l e = (
  record l { text_shown_this_turn = if is_empty e.text then l.text_shown_this_turn else true },
  show_text e.text ∷ [],
)
step_kind model_reasoning l e = (l, show_reasoning e.text ∷ [])
step_kind model_tool_call l e = queue_call e.tool_call l
step_kind model_done l e = turn_ended l e
step_kind model_error l e = (clear l, show_error e.err ∷ await_input ∷ [])
step_kind tool_result l e = tool_returned l.state e.tool_call l e
step_kind budget_answer l e = budget_answered l.state l e
step_kind interrupt l e = (clear l, await_input ∷ [])

unfoldable pub step : Loop → Event → Loop × List Action
unfolding step_kind
step l e = step_kind e.kind l e

-- Events in order, with every action in order: what a driver of the loop sees.
unfoldable pub steps : Loop → List Event → Loop × List Action
steps l [] = (l, [])
steps l (e ∷ es) = let (l', out) = step l e in let (l'', rest) = steps l' es in (l'', out ++ rest)
