-- ===== src/Agent/Runner/Quiet/Progress.antt =====
-- Why `drive` ends: what every step uses up.
use leartech_go_common.Base.{
  ℕ, suc, ◌-◌, ◌≤◌, ◌<◌, ◌≡◌, ◌≢◌, refl, ap, ◌∙◌, false, ◌⊎◌, List, [], ◌∷◌, arith,
}
use leartech_go_common.Base.Int.{pos_part}
use leartech_go_common.Agent.Loop.{
  Loop, Event, EventKind, user_input, Action, send_turn, run_tool, ask_to_continue, show_text,
  show_reasoning, show_error, await_input, show_truncated, show_note, State, idle, awaiting,
  running, asking, step,
}
use leartech_go_common.Agent.Loop.Invariant.{IsSettled}
use leartech_go_common.Agent.Loop.Budget.{runs}
use leartech_go_common.Agent.Runner.Queue.{Added, sends, heft, weight, weight-append}

-- The calls that the budget has left.
abbrev pub room : Loop → ℕ
room l = pos_part l.max_tools - l.used

abbrev pub flag : State → ℕ
flag running = 1
flag idle = 0
flag awaiting = 0
flag asking = 0

abbrev pub cost : List Action → ℕ
cost [] = 0
cost (ask_to_continue n u m ∷ out) = suc (cost out)
cost (_ ∷ out) = cost out

abbrev pub IsDeclined : Event → Type 0
IsDeclined e = e.allow ≡ false

-- Every step that no yes causes uses up budget, or leaves the state in which tools run, or takes more
-- from the queue than it puts there.
unfoldable pub Progress : Loop → Event → Type 0
Progress l e =
    (room (step l e).0 < room l)
    ⊎ (((room (step l e).0 ≡ room l) × (flag (step l e).0.state < flag l.state))
        ⊎ ((room (step l e).0 ≡ room l)
            × (flag (step l e).0.state ≤ flag l.state)
            × (sends (step l e).1 ≡ false)
            × (runs (step l e).1 ≡ 0)
            × (cost (step l e).1 < heft e.kind)))

pub step-Progress :
    (l : Loop) (e : Event) → IsDeclined e → e.kind ≢ user_input → IsSettled l → Progress l e
unfolding step Progress
step-Progress l e h k s = ground arith

pub Added-weight :
    (out : List Action) (es : List Event)
    → Added out es
    → sends out ≡ false
    → runs out ≡ 0
    → weight es ≡ cost out
Added-weight [] es e s r = rw e refl
Added-weight (send_turn ms ∷ out) es h s r = cc
Added-weight (run_tool c ∷ out) es h s r = omega arith
Added-weight (ask_to_continue n u m ∷ out) es (fs, gs, e, (q, z, a, one), more) s r =
    ap weight e ∙ omega (arith, weight-append fs gs, Added-weight out gs more s r)
Added-weight (show_text t ∷ out) es (fs, gs, e, blank, more) s r =
    ap weight e ∙ rw blank (Added-weight out gs more s r)
Added-weight (show_reasoning t ∷ out) es (fs, gs, e, blank, more) s r =
    ap weight e ∙ rw blank (Added-weight out gs more s r)
Added-weight (show_error x ∷ out) es (fs, gs, e, blank, more) s r =
    ap weight e ∙ rw blank (Added-weight out gs more s r)
Added-weight (await_input ∷ out) es (fs, gs, e, blank, more) s r =
    ap weight e ∙ rw blank (Added-weight out gs more s r)
Added-weight (show_truncated t ∷ out) es (fs, gs, e, blank, more) s r =
    ap weight e ∙ rw blank (Added-weight out gs more s r)
Added-weight (show_note t ∷ out) es (fs, gs, e, blank, more) s r =
    ap weight e ∙ rw blank (Added-weight out gs more s r)

pub heft_positive : (k : EventKind) → 0 < heft k
heft_positive k = ground arith
