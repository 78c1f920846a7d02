-- ===== src/Machine/Invariant.antt =====
-- What holds of the state machine between two events.
use alpr_li_dar_gate_automat.Base.{◌≡◌, ◌⊎◌, true, List, [], ◌∷◌, arith}
use alpr_li_dar_gate_automat.Machine.{
  StateMachine, new, handle, init_closed, init_open, init_unknown,
}
use alpr_li_dar_gate_automat.Machine.Types.{
  State, closing, stopped_open, stopped_close, faulted, Event, Reason, Config,
}

-- Which reasons may stand in `reason_` beside each state.
abbrev pub Explains : State → Reason → Type 0
Explains stopped_open r = r ≡ Reason.operator_stop
Explains stopped_close r = (r ≡ Reason.operator_stop) ⊎ (r ≡ Reason.safety_beam_obstacle)
Explains faulted r = (r ≡ Reason.motor_timeout) ⊎ (r ≡ Reason.limit_switch_conflict)
Explains _ r = r ≡ Reason.none

pub record IsValid (m : StateMachine) : Type 0 where
  pub explained : Explains m.state m.reason
  pub beam_respected : m.state ≡ closing → m.beam_clear ≡ true

-- What the driver layer does to the machine: boot it, or feed it an event.
pub data Input : Type 0 where
  boot_closed boot_open boot_unknown : Input
  event : Event → Input

unfoldable pub feed : StateMachine → Input → StateMachine
feed m boot_closed = (init_closed m).0
feed m boot_open = (init_open m).0
feed m boot_unknown = (init_unknown m).0
feed m (event ev) = (handle m ev).0

unfoldable pub run : StateMachine → List Input → StateMachine
run m [] = m
run m (i ∷ is) = run (feed m i) is

pub new-IsValid : (c : Config) → IsValid (new c)
unfolding new
new-IsValid c = ground arith

pub handle-IsValid : (m : StateMachine) (ev : Event) → IsValid m → IsValid (handle m ev).0
unfolding handle
handle-IsValid m ev v = ground arith

feed-IsValid : (m : StateMachine) (i : Input) → IsValid m → IsValid (feed m i)
unfolding feed init_closed init_open init_unknown
feed-IsValid m (event ev) v = handle-IsValid m ev v
feed-IsValid m _ v = ground arith

run_from-IsValid : (m : StateMachine) (is : List Input) → IsValid m → IsValid (run m is)
unfolding run
run_from-IsValid m [] v = v
run_from-IsValid m (i ∷ is) v = run_from-IsValid (feed m i) is (feed-IsValid m i v)

-- After any sequence of boots and events from a new machine, the reason fits the state, and the
-- machine is not in Closing while the beam latch records a broken beam.
pub run-IsValid : (c : Config) (is : List Input) → IsValid (run (new c) is)
run-IsValid c is = run_from-IsValid (new c) is (new-IsValid c)
