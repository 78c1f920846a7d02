-- ===== src/Rpc/Tracker/Verdicts.antt =====
-- Which verdicts a history of calls returns.
use alpr_li_dar_gate_automat.Base.{
  Bool, List, [], arith, false, if◌then◌else◌, sym, take, true, ℕ, ◌++◌, ◌∷◌, ◌≡◌,
}
use mathlib.Core.List.{append-nil, append_assoc}
use alpr_li_dar_gate_automat.Machine.Types.{
  State, stopped_open, stopped_close, faulted, Reason, state_eq,
}
use alpr_li_dar_gate_automat.Rpc.Tracker.{
  Bool, List, CommandTracker, Verdict, arm, on_gate_event, on_tick, max_id_length,
}

-- The calls that the RPC client makes.
pub data Call : Type 0 where
  arms : List ℕ → State → ℕ → Call
  hears : State → Reason → Bool → Call
  ticks : ℕ → Call

unfoldable pub call : CommandTracker → Call → CommandTracker × Verdict
call t (arms i s d) = arm t i s d
call t (hears s r b) = on_gate_event t s r b
call t (ticks now) = on_tick t now

unfoldable pub run : CommandTracker → List Call → CommandTracker
run t [] = t
run t (c ∷ cs) = run (call t c).0 cs

-- The identifiers of a verdict, of a live command, of a call: at most one each.
abbrev pub fired_id : Verdict → List (List ℕ)
fired_id v = if v.fire then v.command_id ∷ [] else []

abbrev pub live_id : CommandTracker → List (List ℕ)
live_id t = if t.armed then t.id ∷ [] else []

abbrev pub armed_id : Call → List (List ℕ)
armed_id (arms i s d) = take max_id_length i ∷ []
armed_id _ = []

-- The identifiers that the verdicts of a history carry, and those that it armed, in order.
unfoldable pub acknowledged : CommandTracker → List Call → List (List ℕ)
acknowledged t [] = []
acknowledged t (c ∷ cs) = fired_id (call t c).1 ++ acknowledged (call t c).0 cs

unfoldable pub commanded : List Call → List (List ℕ)
commanded [] = []
commanded (c ∷ cs) = armed_id c ++ commanded cs

pub call_balance :
    (t : CommandTracker) (c : Call)
    → fired_id (call t c).1 ++ live_id (call t c).0 ≡ live_id t ++ armed_id c
unfolding call arm on_gate_event on_tick
call_balance t (arms i s d) = ground arith
call_balance t (hears s r b) = ground arith
call_balance t (ticks now) = ground arith

-- Every armed command is acknowledged exactly once, in the order of arming and under its own
-- identifier (cut to 39 bytes), but for the one that is still live at the end.
pub run_balance :
    (t : CommandTracker) (cs : List Call)
    → acknowledged t cs ++ live_id (run t cs) ≡ live_id t ++ commanded cs
unfolding acknowledged commanded run
run_balance t [] = sym (append-nil (live_id t))
run_balance t (c ∷ cs) =
    rw
      (append_assoc (fired_id (call t c).1) (acknowledged (call t c).0 cs)
        (live_id (run (call t c).0 cs)))
      (rw (run_balance (call t c).0 cs) (
        rw (← append_assoc (fired_id (call t c).1) (live_id (call t c).0) (commanded cs))
          (rw (call_balance t c) (append_assoc (live_id t) (armed_id c) (commanded cs)))))

-- What a gate event means for a command that waits for `goal`.
pub data Outcome : Type 0 where
  pending succeeded failed : Outcome

abbrev pub outcome : State → State → Reason → Bool → Outcome
outcome goal s r true =
    if state_eq s goal
    then succeeded
    else elim s [ faulted ↦ failed | stopped_open ↦ failed | stopped_close ↦ failed | _ ↦ pending ]
outcome goal s Reason.safety_beam_obstacle false = failed
outcome goal s _ false = pending

abbrev pub Answers : CommandTracker → Outcome → CommandTracker × Verdict → Type 0
Answers t pending (t', v) = (t' ≡ t) × (v.fire ≡ false)
Answers t succeeded (t', v) =
    (t'.armed ≡ false) × (v.fire ≡ true) × (v.success ≡ true) × (v.command_id ≡ t.id)
Answers t failed (t', v) =
    (t'.armed ≡ false) × (v.fire ≡ true) × (v.success ≡ false) × (v.command_id ≡ t.id)

-- A live command succeeds exactly on the transition into its goal, fails on any other transition
-- into a fault or a stop and on a refusal by the beam, and otherwise stays as it is; without a
-- live command nothing fires.
pub on_gate_event_lem :
    (t : CommandTracker) (s : State) (r : Reason) (b : Bool)
    → Answers t (if t.armed then outcome t.terminal_ok s r b else pending) (on_gate_event t s r b)
unfolding on_gate_event
on_gate_event_lem t s r true = ground arith
on_gate_event_lem t s r false = ground arith
