-- ===== src/Server/Services/Latched.antt =====
-- A gate that a guard has latched closed.
use alpr_li_dar_gate_automat.Base.{
  bytes_eq_refl, ℕ, Bool, true, false, List, [], ◌∷◌, Option, none, some, bytes_eq, All, ◌≡◌, refl,
  ap, ◌∙◌, arith, ◌&&◌,
}
use alpr_li_dar_gate_automat.Firmware.{CommandKind, latch_open, latch_close, release_latch}
use alpr_li_dar_gate_automat.Rpc.Client.{GateCommand}
use alpr_li_dar_gate_automat.Server.Broadcast.{is_empty}
use alpr_li_dar_gate_automat.Server.Decision.{
  FloatApi, AuthorizeRequest, denied, force_close, kept_closed, kept_open, no_override,
}
use alpr_li_dar_gate_automat.Server.Fusion.{
  denied_with, set_override, decide_at, decide_on, override_for, Overrides,
}
use alpr_li_dar_gate_automat.Server.Fusion.Best.{override_for-set_override}
use alpr_li_dar_gate_automat.Server.Services.{
  Server, Clock, CommandBody, DetectionFrame, Envelope, publish_decision, publish_command,
  publish_ack, publish_telemetry, publish_fault, submit_detection, issue_command, authorize, decide,
  request_of, latch, is_unspecified, is_authorized, completed_command,
}
use alpr_li_dar_gate_automat.Server.Services.Control.{
  ControlStream, open_control, identify, read_envelope, end_control,
}

-- A call of a service, or an envelope that comes in.
pub data ServiceCall (F : FloatApi) : Type 0 where
  submits : Clock → List ℕ → List ℕ → DetectionFrame F → ServiceCall F
  issues : Clock → List ℕ → GateCommand CommandBody → ServiceCall F
  authorizes : Clock → List ℕ → AuthorizeRequest F → ServiceCall F
  opens : Clock → Option Envelope → ServiceCall F
  reads : Clock → ControlStream → Envelope → ServiceCall F
  ends : ControlStream → ServiceCall F

abbrev is_release : CommandKind → Bool
is_release latch_open = true
is_release release_latch = true
is_release _ = false

latch-kept_closed :
    (gate : List ℕ) (kind : CommandKind) (g : List ℕ) (m : Overrides)
    → override_for m gate ≡ kept_closed
    → (bytes_eq g gate && is_release kind) ≡ false
    → override_for (latch kind g m) gate ≡ kept_closed
unfolding latch
latch-kept_closed gate CommandKind.unspecified g m h free = h
latch-kept_closed gate CommandKind.open_gate g m h free = h
latch-kept_closed gate CommandKind.close_gate g m h free = h
latch-kept_closed gate CommandKind.pulse_relay g m h free = h
latch-kept_closed gate CommandKind.latch_open g m h free =
    ground (arith, h, free, override_for-set_override m g kept_open gate)
latch-kept_closed gate CommandKind.latch_close g m h free =
    ground (arith, h, free, override_for-set_override m g kept_closed gate)
latch-kept_closed gate CommandKind.release_latch g m h free =
    ground (arith, h, free, override_for-set_override m g no_override gate)
latch-kept_closed gate CommandKind.reboot g m h free = h
latch-kept_closed gate CommandKind.begin_ota g m h free = h
latch-kept_closed gate CommandKind.show_pattern g m h free = h

module _ {F : FloatApi} where
  abbrev pub serve : Server F → ServiceCall F → Server F
  serve s (submits now i j req) = (submit_detection s now i j req).0
  serve s (issues now uuid c) = (issue_command s now uuid c).0
  serve s (authorizes now i req) = (authorize s now i req).0
  serve s (opens now first) = (open_control s now first).0
  serve s (reads now stream env) = read_envelope s now stream env
  serve s (ends stream) = end_control s stream

  abbrev pub serve_all : Server F → List (ServiceCall F) → Server F
  serve_all s [] = s
  serve_all s (call ∷ calls) = serve_all (serve s call) calls

  -- The call takes the latch off a gate, or sets it to open.
  abbrev pub frees : List ℕ → ServiceCall F → Bool
  frees gate (issues now uuid c) = bytes_eq c.rest.gate_id gate && is_release c.rest.kind
  frees gate _ = false

  identify_overrides :
      (s : Server F) (now : Clock) (gate : List ℕ) → (identify s now gate).0.overrides ≡ s.overrides
  unfolding identify
  identify_overrides s now gate = ground arith

  serve-kept_closed :
      (gate : List ℕ) (s : Server F) (call : ServiceCall F)
      → override_for s.overrides gate ≡ kept_closed
      → frees gate call ≡ false
      → override_for (serve s call).overrides gate ≡ kept_closed
  unfolding submit_detection issue_command authorize open_control identify read_envelope end_control
      publish_decision publish_command publish_ack publish_telemetry publish_fault completed_command
  serve-kept_closed gate s (submits now i j req) h free = ground (arith, h)
  serve-kept_closed gate s (issues now uuid c) h free =
      let kept = latch-kept_closed gate c.rest.kind c.rest.gate_id s.overrides h free in
      ground (arith, h, kept)
  serve-kept_closed gate s (authorizes now i req) h free = ground (arith, h)
  serve-kept_closed gate s (opens now none) h free = h
  serve-kept_closed gate s (opens now (some (Envelope.telemetry t))) h free =
      let told = publish_telemetry s now s.default_site_id t in
      let kept : override_for (identify told now t.gate_id).0.overrides gate ≡ kept_closed =
        ap (λ m. override_for m gate) (identify_overrides told now t.gate_id) ∙ h in
      ground (arith, h, kept)
  serve-kept_closed gate s (opens now (some (Envelope.ack a))) h free = h
  serve-kept_closed gate s (opens now (some (Envelope.fault f))) h free = h
  serve-kept_closed gate s (opens now (some (Envelope.command c))) h free = h
  serve-kept_closed gate s (opens now (some Envelope.not_set)) h free = h
  serve-kept_closed gate s (reads now stream (Envelope.telemetry t)) h free = h
  serve-kept_closed gate s (reads now stream (Envelope.ack a)) h free = h
  serve-kept_closed gate s (reads now stream (Envelope.fault f)) h free = h
  serve-kept_closed gate s (reads now stream (Envelope.command c)) h free = h
  serve-kept_closed gate s (reads now stream Envelope.not_set) h free = h
  serve-kept_closed gate s (ends stream) h free = h

  serve_all-kept_closed :
      (gate : List ℕ) (s : Server F) (calls : List (ServiceCall F))
      → override_for s.overrides gate ≡ kept_closed
      → All (λ c. frees gate c ≡ false) calls
      → override_for (serve_all s calls).overrides gate ≡ kept_closed
  serve_all-kept_closed gate s [] h free = h
  serve_all-kept_closed gate s (call ∷ calls) h (f, free) =
      serve_all-kept_closed gate (serve s call) calls (serve-kept_closed gate s call h f) free

  issue_command-kept_closed :
      (s : Server F) (now : Clock) (uuid : List ℕ) (c : GateCommand CommandBody)
      → is_empty c.rest.gate_id ≡ false
      → c.rest.kind ≡ latch_close
      → override_for (issue_command s now uuid c).0.overrides c.rest.gate_id ≡ kept_closed
  unfolding issue_command latch is_unspecified publish_ack publish_command completed_command
  issue_command-kept_closed s now uuid c named kind =
      let gate = c.rest.gate_id in
      let latched : override_for (set_override s.overrides gate kept_closed) gate ≡ kept_closed =
        ground (
          arith,
          override_for-set_override s.overrides gate kept_closed gate,
          bytes_eq_refl gate,
        ) in
      ground (arith, named, kind, latched)

  decide-kept_closed :
      (s : Server F) (now : Clock) (req : AuthorizeRequest F)
      → override_for s.overrides req.gate_id ≡ kept_closed
      → ((decide s now req).verdict ≡ denied) × ((decide s now req).deny_reason ≡ force_close)
  unfolding decide decide_at decide_on denied_with
  decide-kept_closed s now req h = (rw h refl, rw h refl)

  -- After a command that latches a gate closed, whatever is called but a command that opens this latch
  -- or releases it, a frame at this gate is denied as force-closed, and only this decision is
  -- published: no gate is told to open.
  pub latch_close_holds :
      (s : Server F) (now : Clock) (uuid : List ℕ) (c : GateCommand CommandBody)
      (calls : List (ServiceCall F)) (then_on : Clock) (decision_id command_id : List ℕ)
      (req : DetectionFrame F)
      → is_empty c.rest.gate_id ≡ false
      → c.rest.kind ≡ latch_close
      → All (λ call. frees c.rest.gate_id call ≡ false) calls
      → req.gate_id ≡ c.rest.gate_id
      → let s' = serve_all (issue_command s now uuid c).0 calls in
        let d = decide s' then_on (request_of s'.default_site_id req) in
        (d.verdict ≡ denied)
        × (d.deny_reason ≡ force_close)
        × ((submit_detection s' then_on decision_id command_id req).0
            ≡ publish_decision s' then_on s'.default_site_id decision_id d)
  unfolding request_of submit_detection
  latch_close_holds s now uuid c calls then_on decision_id command_id req named kind free same =
      let s' = serve_all (issue_command s now uuid c).0 calls in
      let latched : override_for (issue_command s now uuid c).0.overrides c.rest.gate_id
          ≡ kept_closed =
        issue_command-kept_closed s now uuid c named kind in
      let kept : override_for s'.overrides req.gate_id ≡ kept_closed =
        ap (override_for s'.overrides) same
        ∙ serve_all-kept_closed c.rest.gate_id _ calls latched free in
      let (deny, reason) = decide-kept_closed s' then_on (request_of s'.default_site_id req) kept in
      let stays : is_authorized (decide s' then_on (request_of s'.default_site_id req)).verdict
          ≡ false =
        ap is_authorized deny in
      let named' : is_empty req.gate_id ≡ false = ap is_empty same ∙ named in
      (deny, reason, ground (arith, named', stays))
