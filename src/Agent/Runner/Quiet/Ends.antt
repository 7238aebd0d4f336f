-- ===== src/Agent/Runner/Quiet/Ends.antt =====
-- With nobody to grant more calls, an input is driven to its end, and the loop is idle again.
use mathlib.Core.Path.{subst}
use leartech_go_common.Base.{
  ℕ, zero, suc, ◌≤◌, ◌<◌, ◌≡◌, refl, sym, true, false, none, some, inl, inr, List, [], ◌∷◌, ◌++◌,
  arith, All,
}
use leartech_go_common.Base.Results.{ok, err}
use leartech_go_common.Agent.Loop.{
  Loop, Event, user_input, Message, send_turn, idle, awaiting, step,
}
use leartech_go_common.Agent.Loop.Invariant.{IsSettled, step-IsSettled}
use leartech_go_common.Agent.Runner.Ports.{Ports}
use leartech_go_common.Agent.Runner.Drive.{Driving, Driven, go_on, drive_on, drive}
use leartech_go_common.Agent.Runner.Queue.{live, Added, IsTurn, weight, weight-append, Added-IsTurn}
use leartech_go_common.Agent.Runner.Live.{step-live}
use leartech_go_common.Agent.Runner.Adds.{Adds, AllOrderly, carry_out-Adds}
use leartech_go_common.Agent.Runner.Quiet.{EndsIdle, live-no_input, drive_on-EndsIdle}
use leartech_go_common.Agent.Runner.Quiet.Progress.{
  IsDeclined, room, flag, Progress, step-Progress, heft_positive, Added-weight,
}
use leartech_go_common.Agent.Runner.Quiet.Decline.{Declines, carry_out-Declines}

-- What a queue and a loop keep while they are driven.
abbrev pub Good : List Event → Loop → Type 0
Good q l = IsSettled l × (live l q ≡ true) × All IsDeclined q

module _ {W : Type 0} (ports : Ports W) where
  abbrev pub Stops : List Event → Loop → Driving W → Type 0
  Stops q l d = (fuel : ℕ) × (end : Loop × Driven W) × (drive_on ports fuel q l d ≡ some end)

  pub go_on-Stops :
      (l : Loop) (q : List Event) (m : Driven W) (P : List Event → Type 0)
      → Adds P q m
      → Declines m
      → ((es : List Event) (d : Driving W) → P es → All IsDeclined (q ++ es) → Stops (q ++ es) l d)
      → (fuel : ℕ) × (end : Loop × Driven W) × (go_on ports (drive_on ports fuel) l m ≡ some end)
  unfolding go_on
  go_on-Stops l q (err s) P h k j = (0, (l, err s), refl)
  go_on-Stops l q (ok d) P (es, e, p) k j =
      subst (λ q'. Stops q' l d) (sym e) (j es d p (subst (All IsDeclined) e k))

  pub Stops-cons :
      (e : Event) (q : List Event) (l : Loop) (d : Driving W)
      → AllOrderly ports
      → ports.ask_continue ≡ none
      → All IsDeclined q
      → ((es : List Event) (d : Driving W)
          → Added (step l e).1 es
          → All IsDeclined (q ++ es)
          → Stops (q ++ es) (step l e).0 d)
      → Stops (e ∷ q) l d
  unfolding drive_on
  Stops-cons e q l d all quiet h k =
      let (fuel, end, same) =
        go_on-Stops (step l e).0 q _ (Added (step l e).1)
          (carry_out-Adds ports all (step l e).0.state (step l e).1 (record d { queue = q }))
          (carry_out-Declines ports quiet (step l e).0.state (step l e).1 (record d { queue = q })
            h)
          k in
      (suc fuel, end, same)

  module _ (all : AllOrderly ports) (quiet : ports.ask_continue ≡ none) where
    abbrev BelowRoom : ℕ → Type 0
    BelowRoom r = (q : List Event) (l : Loop) (d : Driving W) → Good q l → room l < r → Stops q l d

    abbrev BelowFlag : ℕ → ℕ → Type 0
    BelowFlag r f =
        (q : List Event) (l : Loop) (d : Driving W)
        → Good q l
        → room l ≤ r
        → flag l.state < f
        → Stops q l d

    at_weight :
        (r f : ℕ)
        → BelowRoom r
        → BelowFlag r f
        → (w : ℕ) (q : List Event) (l : Loop) (d : Driving W) → Good q l
        → room l ≤ r
        → flag l.state ≤ f
        → weight q ≤ w
        → Stops q l d
    unfolding drive_on Progress
    at_weight r f br bf w [] l d good hr hf hw = (0, (l, ok d), refl)
    at_weight r f br bf zero (e ∷ q) l d good hr hf hw =
        absurd (omega (arith, heft_positive e.kind))
    at_weight r f br bf (suc w) (e ∷ q) l d (settled, h, (grants, nos)) hr hf hw =
        let k = live-no_input ports l e q h in
        Stops-cons e q l d all quiet nos (λ es d' added declined.
          let good : Good (q ++ es) (step l e).0 =
            (step-IsSettled l e settled, step-live l e q es k h added, declined) in
          elim (step-Progress l e grants k settled) [
            | inl less ↦ br (q ++ es) (step l e).0 d' good (omega arith)
            | inr (inl (same, less)) ↦ bf (q ++ es) (step l e).0 d' good (omega arith) (omega arith)
            | inr (inr (same, flags, sent, ran, less)) ↦
                at_weight r f br bf w (q ++ es) (step l e).0 d' good (omega arith) (omega arith)
                  (omega (arith, weight-append q es, Added-weight (step l e).1 es added sent ran))
          ])

    below_flag : (r : ℕ) → BelowRoom r → (f : ℕ) → BelowFlag r f
    below_flag r br zero q l d good hr hf = absurd (omega arith)
    below_flag r br (suc f) q l d good hr hf =
        at_weight r f br (below_flag r br f) (weight q) q l d good hr (omega arith) (omega arith)

    below_room : (r : ℕ) → BelowRoom r
    below_room zero q l d good hr = absurd (omega arith)
    below_room (suc r) q l d good hr =
        below_flag r (below_room r) (suc (flag l.state)) q l d good (omega arith) (omega arith)

    Stops-Good : (q : List Event) (l : Loop) (d : Driving W) → Good q l → Stops q l d
    Stops-Good q l d good = below_room (suc (room l)) q l d good (omega arith)

-- An input to an idle loop makes it send the conversation.
input_step :
    (l : Loop) (e : Event)
    → l.state ≡ idle
    → e.kind ≡ user_input
    → ((step l e).0.state ≡ awaiting) × ((ms : List Message) × ((step l e).1 ≡ send_turn ms ∷ []))
unfolding step
input_step l e i k = rw (k, i) (refl, (_, refl))

awaiting-live : (l : Loop) (es : List Event) → l.state ≡ awaiting → IsTurn es → live l es ≡ true
awaiting-live l es a h = ground arith

after_input :
    (l : Loop) (e : Event)
    → l.state ≡ idle
    → IsSettled l
    → e.kind ≡ user_input
    → (es : List Event) → Added (step l e).1 es
    → All IsDeclined es
    → Good es (step l e).0
after_input l e i s k es added declined =
    let (a, (ms, out)) = input_step l e i k in
    (
      step-IsSettled l e s,
      awaiting-live (step l e).0 es a (Added-IsTurn ms es (subst (λ o. Added o es) out added)),
      declined,
    )

module _ {W : Type 0} (ports : Ports W) where
  -- A driven queue that stops does so with the loop idle.
  Stops-idle :
      AllOrderly ports
      → (q : List Event) (l : Loop) (d : Driving W) → Good q l
      → Stops ports q l d
      → (fuel : ℕ) × (end : Loop × Driven W) × (drive_on ports fuel q l d ≡ some end)
        × EndsIdle ports (some end)
  Stops-idle all q l d (settled, h, declined) (fuel, end, same) = (
    fuel,
    end,
    same,
    subst (EndsIdle ports) same (drive_on-EndsIdle ports all fuel q l d settled h),
  )

  go_on-idle :
      AllOrderly ports
      → ports.ask_continue ≡ none
      → (l : Loop) (m : Driven W) (P : List Event → Type 0) → Adds P [] m
      → Declines m
      → ((es : List Event) → P es → All IsDeclined es → Good es l)
      → (fuel : ℕ) × (end : Loop × Driven W) × (go_on ports (drive_on ports fuel) l m ≡ some end)
        × EndsIdle ports (some end)
  unfolding go_on
  go_on-idle all quiet l (err s) P h k j = (0, (l, err s), refl, tt)
  go_on-idle all quiet l (ok d) P (es, e, p) k j =
      let good : Good d.queue l =
        subst (λ q. Good q l) (sym e) (j es p (subst (All IsDeclined) e k)) in
      Stops-idle all d.queue l d good (Stops-Good ports all quiet d.queue l d good)

  -- From an idle loop that holds no result back, with streams that ask for no call after they ended
  -- the turn and nobody to grant more calls, `drive` returns after an input, whatever the tools
  -- answer: with an error of a port, or with the loop idle again and no result held back.
  pub drive-EndsIdle :
      AllOrderly ports
      → ports.ask_continue ≡ none
      → (l : Loop) (first : Event) (w : W) → l.state ≡ idle
      → IsSettled l
      → first.kind ≡ user_input
      → (fuel : ℕ) × (end : Loop × Driven W) × (drive ports fuel l first w ≡ some end)
        × EndsIdle ports (some end)
  unfolding drive drive_on
  drive-EndsIdle all quiet l first w i s k =
      let d : Driving W = record { queue = []; failed = []; needs_break = false; world = w } in
      let (fuel, end, same, idle_end) =
        go_on-idle all quiet (step l first).0 _ (Added (step l first).1)
          (carry_out-Adds ports all (step l first).0.state (step l first).1 d)
          (carry_out-Declines ports quiet (step l first).0.state (step l first).1 d tt)
          (after_input l first i s k) in
      (suc fuel, end, same, idle_end)
