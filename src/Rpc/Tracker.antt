-- ===== src/Rpc/Tracker.antt =====
-- command_tracker.cpp: the one command in flight and the verdict that completes it.
use alpr_li_dar_gate_automat.Base.{
  Bool, List, [], false, if◌then◌else◌, leb, not, sub32, take, true, ℕ, ◌&&◌, ◌||◌,
}
use Prim.Native.String.{String}
use alpr_li_dar_gate_automat.Machine.Types.{
  State, initializing, stopped_open, stopped_close, faulted, Reason, state_eq, reason_eq,
}
use alpr_li_dar_gate_automat.Machine.Names.{reason_to_string}
pub mod Verdicts
pub mod Deadline

-- `sizeof(id_) - 1`.
abbrev pub max_id_length : ℕ
max_id_length = 39

-- A C string is the list of its bytes before the NUL.
pub record Verdict : Type 0 where
  pub fire : Bool
  pub success : Bool
  pub command_id : List ℕ
  pub error : String

pub record CommandTracker : Type 0 where
  pub id : List ℕ
  pub terminal_ok : State
  pub deadline_ms : ℕ  -- uint32_t
  pub armed : Bool

unfoldable pub new : CommandTracker
new = record { id = []; terminal_ok = initializing; deadline_ms = 0; armed = false }

-- `Verdict{}`.
abbrev pub no_verdict : Verdict
no_verdict = record { fire = false; success = false; command_id = []; error = "" }

unfoldable pub resolve : CommandTracker → Bool → String → CommandTracker × Verdict
resolve t success error = (
  record t { armed = false },
  record { fire = true; success = success; command_id = t.id; error = error },
)

unfoldable pub arm : CommandTracker → List ℕ → State → ℕ → CommandTracker × Verdict
unfolding resolve
arm t command_id terminal_ok deadline_ms =
    let (t', superseded) =
      if t.armed then resolve t false "superseded by a newer command" else (t, no_verdict) in
    (
      record t' {
        id = take max_id_length command_id;
        terminal_ok = terminal_ok;
        deadline_ms = deadline_ms;
        armed = true;
      },
      superseded,
    )

unfoldable pub on_gate_event : CommandTracker → State → Reason → Bool → CommandTracker × Verdict
unfolding resolve
on_gate_event t s r transitioned =
    if not t.armed
    then (t, no_verdict)
    else if transitioned && state_eq s t.terminal_ok
    then resolve t true ""
    else if transitioned && state_eq s faulted
    then resolve t false (reason_to_string r)
    else if transitioned && (state_eq s stopped_open || state_eq s stopped_close)
    then resolve t false (reason_to_string r)
    else if not transitioned && reason_eq r Reason.safety_beam_obstacle
    then resolve t false "rejected: safety beam obstacle"
    else (t, no_verdict)

-- The sign of a word as `int32_t`.
abbrev pub is_negative : ℕ → Bool
is_negative w = leb 2_147_483_648 w

unfoldable pub on_tick : CommandTracker → ℕ → CommandTracker × Verdict
unfolding resolve
on_tick t now_ms =
    if not t.armed || is_negative (sub32 now_ms t.deadline_ms)
    then (t, no_verdict)
    else resolve t false "deadline exceeded awaiting terminal state"
