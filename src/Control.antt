-- ===== src/Control.antt =====
-- firmware/components/gate_control: the driver layer that animates the state machine.
-- One step of the model is one poll of an input, one timer expiry, one command posted or one
-- round of the pump task.
pub mod Controller
pub mod Effects
pub mod Steps
pub mod Interlock
pub mod Execution
pub mod Invariant
pub mod Boot
pub mod Safety
pub mod Timers
pub mod Watchdog
pub mod Reverse
