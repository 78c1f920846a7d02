-- ===== src/Drivers.antt =====
-- firmware/components/gate_drivers: the input debouncers, the motor relay and the status LED.
pub mod Debounce
pub mod LimitSwitch
pub mod SafetyBeam
pub mod Relay
pub mod StatusLed
