-- ===== src/Examples/Checkpoints.antt =====
-- pkg/agentloop/checkpoint.go at concrete conversations. The digest is the text itself, and the JSON
-- library reads back one checkpoint.
use leartech_go_common.Base.{◌≡◌, refl, inl, List, [], ◌∷◌, Text, codes, some}
use leartech_go_common.Base.Int.{pos}
use leartech_go_common.Base.Results.{ok}
use leartech_go_common.Agent.Loop.{
  Loop, Event, Message, user_input, model_text, model_tool_call, model_done, tool_result, ToolCall,
  new, step, steps, text_message,
}
use leartech_go_common.Agent.Loop.Turn.{blank}
use leartech_go_common.Agent.Checkpoint.{
  Checkpoint, sealed, checkpoint, restore_checkpoint, checkpoint_at,
}
use leartech_go_common.Agent.Checkpoint.Resume.{reached, restore-checkpoint}

abbrev pub same_text : Text → Text
same_text t = t

abbrev pub talk : List Message
talk =
    text_message (codes "user") (codes "hello") ∷ text_message (codes "assistant") (codes "hi") ∷ []

abbrev pub saved : Checkpoint
saved = sealed same_text (pos 1) [] talk

abbrev next_input : Event
next_input = record (blank user_input) { text = codes "go on" }

abbrev ls : ToolCall
ls = record { id = codes "1"; name = codes "ls"; arguments = codes "{}" }

-- A question, a call with its result, and the model's answer.
abbrev first_turn : List Event
first_turn =
    record (blank user_input) { text = codes "list" }
    ∷ record (blank model_tool_call) { tool_call = some ls }
    ∷ blank model_done
    ∷ record (blank tool_result) { tool_call = some ls; result = codes "a.go" }
    ∷ record (blank model_text) { text = codes "done" }
    ∷ blank model_done
    ∷ []

abbrev rested : Loop
rested = reached [] (pos 7) first_turn

abbrev rested_saved : Checkpoint
rested_saved = sealed same_text (pos 1) [] rested.messages

restore-checkpoint_example :
    (r : Loop) × (restore_checkpoint (λ b. some rested_saved) [] rested.max_tools ≡ ok r)
    × ((steps r (next_input ∷ [])).1 ≡ (steps rested (next_input ∷ [])).1)
    × ((steps r (next_input ∷ [])).0
        ≡ record (steps rested (next_input ∷ [])).0 { budget = rested.max_tools })
unfolding checkpoint checkpoint_at steps step new
restore-checkpoint_example =
    restore-checkpoint same_text (λ b. some rested_saved) [] [] (pos 7) first_turn (pos 1) []
      rested_saved next_input []
      ((λ e. cc), ((λ e. refl), ((λ e. cc), ((λ e. cc), ((λ e. cc), ((λ e. cc), tt)))))) refl refl
      (λ e. cc) refl (inl refl)
