-- ===== src/Simulation/VirtualGate/Answers.antt =====
-- Every command is answered once.
use alpr_li_dar_gate_automat.Simulation.VirtualGate.Calls.{opens, closes, stops, boots}
use alpr_li_dar_gate_automat.Simulation.VirtualGate.Acks.{
  accounted-advance, accounted-resolve_position, accounted-clear_fault, accounted-step,
  accounted-settle, accounted-issue, accounted, ack_ids,
}
use alpr_li_dar_gate_automat.Machine.Types.{
  command_close, command_open, command_stop, safety_beam_cleared, safety_beam_tripped,
}
use alpr_li_dar_gate_automat.Base.{
  refl, List, [], ap, false, sym, take, true, ℕ, ◌++◌, ◌∙◌, ◌∷◌, ◌≡◌,
}
use mathlib.Core.List.{append-nil, append_assoc}
use alpr_li_dar_gate_automat.Machine.{init_closed}
use alpr_li_dar_gate_automat.Rpc.Tracker.{max_id_length}
use alpr_li_dar_gate_automat.Rpc.Tracker.Verdicts.{live_id}
use alpr_li_dar_gate_automat.Simulation.VirtualGate.Calls.{
  advances, boots, clears_beam, clears_fault, drains, issues, reboots, trips_beam, Call, call, run,
}
use alpr_li_dar_gate_automat.Simulation.VirtualGate.{
  Command, trip_beam, reboot, local_close, local_open, drain_acks, List, VirtualGate, boot_closed,
  clear_beam, operator_stop,
}

-- The commands that the calls issue, and the answers fetched in between and left at the end.
abbrev pub issued : List Call → List (List ℕ)
issued [] = []
issued (issues id c ∷ cs) = take max_id_length id ∷ issued cs
issued (_ ∷ cs) = issued cs

abbrev pub answered : VirtualGate → List Call → List (List ℕ)
answered g [] = ack_ids g.acks
answered g (drains ∷ cs) = ack_ids (drain_acks g).1 ++ answered (call g drains) cs
answered g (c ∷ cs) = answered (call g c) cs

accounted-drains :
    (g : VirtualGate) → ack_ids (drain_acks g).1 ++ accounted (call g drains) ≡ accounted g
unfolding call drain_acks
accounted-drains g = refl

issue_accounts :
    (g : VirtualGate) (id : List ℕ) (c : Command)
    → accounted (call g (issues id c)) ≡ accounted g ++ take max_id_length id ∷ []
unfolding call
issue_accounts g id c = accounted-issue g id c

-- A call that is no issue and no drain.
keeps :
    (g : VirtualGate) (c : Call) (cs : List Call)
    → accounted (call g c) ≡ accounted g
    → answered (call g c) cs ++ live_id (run (call g c) cs).tracker
      ≡ accounted (call g c) ++ issued cs
    → answered (call g c) cs ++ live_id (run (call g c) cs).tracker ≡ accounted g ++ issued cs
keeps g c cs k ih = ih ∙ ap (λ l. l ++ issued cs) k

-- Every command issued is answered exactly once, in the order of issue and under its own identifier
-- (cut to 39 bytes), but for one that may still be in flight, whatever else is called in between.
pub answered_lem :
    (g : VirtualGate) (cs : List Call)
    → answered g cs ++ live_id (run g cs).tracker ≡ accounted g ++ issued cs
unfolding run
answered_lem g [] = sym (append-nil (accounted g))
answered_lem g (drains ∷ cs) =
    append_assoc (ack_ids (drain_acks g).1) (answered (call g drains) cs) _
    ∙ ap (λ l. ack_ids (drain_acks g).1 ++ l) (answered_lem (call g drains) cs)
    ∙ sym (append_assoc (ack_ids (drain_acks g).1) (accounted (call g drains)) (issued cs))
    ∙ ap (λ l. l ++ issued cs) (accounted-drains g)
answered_lem g (issues id c ∷ cs) =
    answered_lem (call g (issues id c)) cs
    ∙ ap (λ l. l ++ issued cs) (issue_accounts g id c)
    ∙ append_assoc (accounted g) (take max_id_length id ∷ []) (issued cs)
answered_lem g (boots ∷ cs) =
    keeps g boots cs
      (unfold call boot_closed in
        accounted-settle (record g { position_ms = 0 }) (init_closed g.machine))
      (answered_lem (call g boots) cs)
answered_lem g (opens ∷ cs) =
    keeps g opens cs (unfold call local_open in accounted-step g command_open)
      (answered_lem (call g opens) cs)
answered_lem g (closes ∷ cs) =
    keeps g closes cs (unfold call local_close in accounted-step g command_close)
      (answered_lem (call g closes) cs)
answered_lem g (stops ∷ cs) =
    keeps g stops cs (unfold call operator_stop in accounted-step g command_stop)
      (answered_lem (call g stops) cs)
answered_lem g (clears_fault ∷ cs) =
    keeps g clears_fault cs (unfold call in accounted-clear_fault g)
      (answered_lem (call g clears_fault) cs)
answered_lem g (reboots ∷ cs) =
    keeps g reboots cs (unfold call reboot in accounted-resolve_position _)
      (answered_lem (call g reboots) cs)
answered_lem g (trips_beam ∷ cs) =
    keeps g trips_beam cs
      (unfold call trip_beam in
        accounted-step (record g { beam_blocked = true }) safety_beam_tripped)
      (answered_lem (call g trips_beam) cs)
answered_lem g (clears_beam ∷ cs) =
    keeps g clears_beam cs
      (unfold call clear_beam in
        accounted-step (record g { beam_blocked = false }) safety_beam_cleared)
      (answered_lem (call g clears_beam) cs)
answered_lem g (advances dt ∷ cs) =
    keeps g (advances dt) cs (unfold call in accounted-advance g dt)
      (answered_lem (call g (advances dt)) cs)
