-- ===== src/Server/Services/Control.antt =====
-- field_controller_service.cpp: the Control stream of a gate, with its reader and its writer thread.
-- A subscription is its position in the broadcaster's list.
use alpr_li_dar_gate_automat.Base.{
  ℕ, Bool, true, false, List, [], ◌∷◌, Option, none, some, if◌then◌else◌, length,
}
use alpr_li_dar_gate_automat.Rpc.Client.{GateCommand}
use alpr_li_dar_gate_automat.Server.Broadcast.{
  Subscriber, DashboardEvent, DashboardSubscription, Kind, subscribe, next, close, release,
  on_subscriber, is_empty,
}
use alpr_li_dar_gate_automat.Server.Decision.{FloatApi}
use alpr_li_dar_gate_automat.Server.Services.{
  unimplemented, Server, Clock, Status, Envelope, Payload, CommandBody, telemetry, ack, fault,
  command, not_set, ordered, invalid_argument, unavailable, fine, publish_telemetry, publish_ack,
  publish_fault,
}

pub record ControlStream : Type 0 where
  pub gate_id : List ℕ
  pub sub : ℕ

unfoldable pub control_filter : List ℕ → DashboardSubscription
control_filter gate_id = record {
  site_id = [];
  gate_ids = gate_id ∷ [];
  include_decisions = true;
  include_telemetry = false;
  include_faults = false;
  include_ota = false;
  since_event_id = 0;
}

-- What one round of a writer does: it leaves its loop, goes on, or goes on with a message written.
pub data Round (A : Type 0) : Type 0 where
  leaves continues : Round A
  writes : A → Round A

-- `e->payload_case() == kCommand`, with the command.
unfoldable pub command_in : {F : FloatApi} → Kind → Payload F → Option (GateCommand CommandBody)
command_in Kind.command (ordered c) = some c
command_in _ _ = none

module _ {F : FloatApi} where
  -- Up to the threads; `none` is a stream that closes before its first envelope.
  unfoldable pub identify : Server F → Clock → List ℕ → Server F × Status × Option ControlStream
  identify s now gate_id = elim (subscribe s.bus (control_filter gate_id)).1 [
    | none ↦ (s, record { code = unavailable; message = "broadcaster is shutting down" }, none)
    | some sub ↦ (
      record s { bus = (subscribe s.bus (control_filter gate_id)).0 },
      fine,
      some (record { gate_id = gate_id; sub = length s.bus.subs }),
    )
  ]

  unfoldable pub open_control :
      Server F → Clock → Option Envelope → Server F × Status × Option ControlStream
  open_control s now none = (
    s,
    record { code = invalid_argument; message = "control stream closed before identifying gate" },
    none,
  )
  open_control s now (some (telemetry t)) =
      if is_empty t.gate_id
      then (s, record { code = invalid_argument; message = "telemetry.gate_id is required" }, none)
      else identify (publish_telemetry s now s.default_site_id t) now t.gate_id
  open_control s now (some _) = (
    s,
    record {
      code = invalid_argument;
      message = "first envelope must be Telemetry carrying gate_id";
    },
    none,
  )

  -- The reader loop on one envelope.
  unfoldable pub read_envelope : Server F → Clock → ControlStream → Envelope → Server F
  read_envelope s now stream (telemetry t) = publish_telemetry s now s.default_site_id t
  read_envelope s now stream (ack a) = publish_ack s now s.default_site_id stream.gate_id a
  read_envelope s now stream (fault f) = publish_fault s now s.default_site_id f
  read_envelope s now stream (command c) = s
  read_envelope s now stream not_set = s

  -- One round of the writer thread. `halted` is its loop condition, `stopped` that of the
  -- broadcaster, and `accepts` says whether the stream takes the write.
  unfoldable pub writer_round :
      Bool
      → Bool
      → Bool
      → Subscriber (Payload F)
      → Subscriber (Payload F) × Round (GateCommand CommandBody)
  writer_round halted stopped accepts sub =
      let (rest, e) = next sub in
      if halted then (sub, leaves) else elim e [
        | none ↦ (rest, if stopped then leaves else continues)
        | some event ↦ elim (command_in event.kind event.content) [
          | none ↦ (rest, continues)
          | some c ↦ (rest, if accepts then writes c else leaves)
        ]
      ]

  -- The stream is at its end: the subscription is closed and its owner drops it.
  unfoldable pub end_control : Server F → ControlStream → Server F
  end_control s stream = record s {
    bus = record s.bus { subs = on_subscriber (λ t. release (close t)) stream.sub s.bus.subs };
  }

  -- dashboard_service.cpp: the live loop of Subscribe on one round.
  unfoldable pub dashboard_round :
      Bool
      → Bool
      → Bool
      → Subscriber (Payload F)
      → Subscriber (Payload F) × Round (DashboardEvent (Payload F))
  dashboard_round cancelled stopped accepts sub =
      let (rest, e) = next sub in
      if cancelled then (sub, leaves) else elim e [
        | none ↦ (rest, if stopped then leaves else continues)
        | some event ↦ (rest, if accepts then writes event else leaves)
      ]

  -- The start of Subscribe; the position of the subscription.
  unfoldable pub open_dashboard : Server F → DashboardSubscription → Server F × Status × Option ℕ
  open_dashboard s req = elim (subscribe s.bus req).1 [
    | none ↦ (s, record { code = unavailable; message = "broadcaster is shutting down" }, none)
    | some sub ↦ (record s { bus = (subscribe s.bus req).0 }, fine, some (length s.bus.subs))
  ]

-- The loop of Subscribe over the events that are replayed, by whether the call goes on and takes each
-- write: what is written, and whether the live loop is reached.
unfoldable pub write_replay : {A : Type 0} → List Bool → List A → List A × Bool
write_replay answers [] = ([], true)
write_replay [] (e ∷ es) = ([], false)
write_replay (g ∷ answers) (e ∷ es) =
    let rest = write_replay answers es in if g then (e ∷ rest.0, rest.1) else ([], false)

-- DeliverOta and ReportOtaProgress.
unfoldable pub deliver_ota : Status
deliver_ota = record { code = unimplemented; message = "OTA delivery is implemented in Phase 4.5" }

unfoldable pub report_ota_progress : Status
report_ota_progress = record {
  code = unimplemented;
  message = "OTA progress reporting is implemented in Phase 4.5";
}
