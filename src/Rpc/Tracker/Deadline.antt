-- ===== src/Rpc/Tracker/Deadline.antt =====
-- The deadline of a command on a 32-bit millisecond clock that wraps.
use alpr_li_dar_gate_automat.Base.{List, arith, true, u32_mod, ℕ, ◌%◌, ◌+◌, ◌<◌, ◌↔◌, ◌≡◌, ◌≤◌}
use alpr_li_dar_gate_automat.Rpc.Tracker.{State, List, ℕ, CommandTracker, arm, on_tick}

abbrev pub u32 : ℕ → ℕ
u32 n = n % u32_mod

-- On an unwrapped clock, a tick at `now` within 2 ^ 31 ms of the deadline fires exactly from
-- the deadline on, also where the 32-bit clock wraps in between.
pub on_tick-arm :
    (t : CommandTracker) (i : List ℕ) (s : State) (deadline now : ℕ)
    → now < deadline + 2_147_483_648
    → deadline ≤ now + 2_147_483_648
    → ((on_tick (arm t i s (u32 deadline)).0 (u32 now)).1.fire ≡ true) ↔ (deadline ≤ now)
unfolding on_tick arm
on_tick-arm t i s deadline now h k = (ground arith, ground arith)
