-- ===== src/Machine/Histories.antt =====
-- What holds of the state machine over every history of boots and events.
use alpr_li_dar_gate_automat.Base.{
  ◌≡◌, ◌≢◌, refl, ap, ◌∙◌, sym, Bool, true, false, List, [], ◌∷◌, arith, All,
}
use alpr_li_dar_gate_automat.Machine.{
  StateMachine, new, handle, init_closed, init_open, init_unknown,
}
use alpr_li_dar_gate_automat.Machine.Types.{
  closed, closing, faulted, Event, command_open, command_close, limit_open_hit, limit_closed_hit,
  safety_beam_tripped, safety_beam_cleared, fault_cleared, Config,
}
use alpr_li_dar_gate_automat.Machine.Invariant.{Input, event, feed, run, run-IsValid}

-- Whether the beam is clear by the last beam event of a history, `before` if there is none.
abbrev pub last_beam : Bool → List Input → Bool
last_beam before [] = before
last_beam before (event safety_beam_tripped ∷ is) = last_beam false is
last_beam before (event safety_beam_cleared ∷ is) = last_beam true is
last_beam before (_ ∷ is) = last_beam before is

beam_clear-feed :
    (m : StateMachine) (i : Input) → (feed m i).beam_clear ≡ last_beam m.beam_clear (i ∷ [])
unfolding feed handle init_closed init_open init_unknown
beam_clear-feed m (event ev) = ground arith
beam_clear-feed m _ = refl

last_beam-cons :
    (b : Bool) (i : Input) (is : List Input)
    → last_beam b (i ∷ is) ≡ last_beam (last_beam b (i ∷ [])) is
last_beam-cons b (event safety_beam_tripped) is = refl
last_beam-cons b _ is = refl

-- The latch always records the last beam event, whatever the machine did meanwhile.
beam_clear-run :
    (m : StateMachine) (is : List Input) → (run m is).beam_clear ≡ last_beam m.beam_clear is
unfolding run
beam_clear-run m [] = refl
beam_clear-run m (i ∷ is) =
    beam_clear-run (feed m i) is
    ∙ (ap (λ b. last_beam b is) (beam_clear-feed m i) ∙ sym (last_beam-cons m.beam_clear i is))

-- The gate is closing only where the last beam event of the whole history, if there is one, says
-- that the beam is clear: it never closes onto an obstacle that the driver layer has reported.
pub closing_needs_clear_beam :
    (c : Config) (is : List Input) → (run (new c) is).state ≡ closing → last_beam true is ≡ true
unfolding new
closing_needs_clear_beam c is h =
    sym (beam_clear-run (new c) is) ∙ (run-IsValid c is).beam_respected h

abbrev pub events : List Event → List Input
events [] = []
events (ev ∷ evs) = event ev ∷ events evs

fault_kept :
    (m : StateMachine) (ev : Event)
    → ev ≢ fault_cleared
    → m.state ≡ faulted
    → ((feed m (event ev)).state ≡ faulted) × ((feed m (event ev)).reason ≡ m.reason)
unfolding feed handle
fault_kept m fault_cleared ne h = absurd (ne refl)
fault_kept m _ ne h = ground arith

-- No event but `fault_cleared`, in any number and order, gets a machine out of Faulted or changes
-- the recorded reason.
pub faulted_absorbs :
    (m : StateMachine) (evs : List Event)
    → All (λ ev. ev ≢ fault_cleared) evs
    → m.state ≡ faulted
    → ((run m (events evs)).state ≡ faulted) × ((run m (events evs)).reason ≡ m.reason)
unfolding run
faulted_absorbs m [] a h = (h, refl)
faulted_absorbs m (ev ∷ evs) a h =
    let (s, r) = fault_kept m ev a.0 h in
    let (s', r') = faulted_absorbs (feed m (event ev)) evs a.1 s in (s', r' ∙ r)

-- From Closed with a clear beam the cycle open, limit reached, close, limit reached leaves
-- exactly the machine that it began with.
pub full_cycle :
    (m : StateMachine)
    → m.state ≡ closed
    → m.beam_clear ≡ true
    → run m (events (command_open ∷ limit_open_hit ∷ command_close ∷ limit_closed_hit ∷ [])) ≡ m
unfolding run feed handle
full_cycle m h b = ground arith
