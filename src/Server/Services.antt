-- ===== src/Server/Services.antt =====
-- server/rpc/src: field_controller_service.cpp and dashboard_service.cpp. gRPC enters by what it
-- hands in: the request, the envelopes read from a stream, and whether a write succeeds. The calls of
-- the services, and the rounds of the threads that serve a stream, appear one after another.
use Prim.Native.String.{String}
use alpr_li_dar_gate_automat.Base.{
  ℕ, Bool, true, false, not, List, [], ◌∷◌, ◌++◌, Option, none, some, if◌then◌else◌, ◌||◌, ◌==◌,
}
use alpr_li_dar_gate_automat.Firmware.{
  CommandKind, unspecified, open_gate, close_gate, pulse_relay, latch_open, latch_close,
  release_latch, reboot, begin_ota, show_pattern,
}
use alpr_li_dar_gate_automat.Rpc.Client.{Telemetry, CommandAck, GateCommand, Timestamp, GateState}
use alpr_li_dar_gate_automat.Server.Allowlist.{LocalTime}
use alpr_li_dar_gate_automat.Server.Broadcast.{
  EventBroadcaster, Subscriber, DashboardEvent, DashboardSubscription, Kind, publish_payload,
  publish_as, subscribe, next, close, release, on_subscriber, is_empty,
}
use alpr_li_dar_gate_automat.Server.Decision.{
  FloatApi, FusionConfig, Store, PlateDetection, VehicleDetection, AuthorizeRequest, AuthDecision,
  AuthVerdict, OverrideState, no_override, kept_open, kept_closed,
}
use alpr_li_dar_gate_automat.Server.Fusion.{Overrides, set_override, decide_at}
pub mod Control
pub mod Delivery
pub mod Resume
pub mod Orders
pub mod Latched
pub mod Dashboards

-- A `GateCommand` but for its identifier. `others` is the duration, the relay index and the
-- signature, which are only passed on; it is empty where they are not set.
pub record CommandBody : Type 0 where
  pub issued_ts : Option Timestamp
  pub gate_id : List ℕ
  pub kind : CommandKind
  pub led : ℕ
  pub actor : List ℕ
  pub others : List ℕ

-- A `FaultEvent` is its gate and the rest of it.
pub record FaultEvent : Type 0 where
  pub gate_id : List ℕ
  pub others : List ℕ

-- The payload of a `ControlEnvelope`; `not_set` is PAYLOAD_NOT_SET.
pub data Envelope : Type 0 where
  telemetry : Telemetry → Envelope
  ack : CommandAck → Envelope
  fault : FaultEvent → Envelope
  command : GateCommand CommandBody → Envelope
  not_set : Envelope

-- The contents of the events that the services publish; a decision comes with its identifier.
pub data Payload (F : FloatApi) : Type 0 where
  decided : List ℕ → AuthDecision F → Payload F
  reported : Telemetry → Payload F
  failed : FaultEvent → Payload F
  ordered : GateCommand CommandBody → Payload F
  answered : CommandAck → Payload F

pub data StatusCode : Type 0 where
  ok invalid_argument unavailable unimplemented : StatusCode

pub record Status : Type 0 where
  pub code : StatusCode
  pub message : String

abbrev pub fine : Status
fine = record { code = ok; message = "" }

-- What `time` and `localtime_r` say.
pub record Clock : Type 0 where
  pub unix : ℕ
  pub local : LocalTime

-- The fields of a `DetectionFrame` that are read.
pub record DetectionFrame (F : FloatApi) : Type 0 where
  pub gate_id : List ℕ
  pub frame_id : ℕ
  pub plates : List (PlateDetection F)
  pub vehicles : List (VehicleDetection F)

-- The broadcaster and the fusion engine, which the services share.
pub record Server (F : FloatApi) : Type 0 where
  pub bus : EventBroadcaster (Payload F)
  pub overrides : Overrides
  pub cfg : FusionConfig F
  pub store : Store
  pub default_site_id : List ℕ

abbrev pub seconds_only : ℕ → Timestamp
seconds_only n = record { seconds = n; nanos = 0 }

abbrev pub is_authorized : AuthVerdict → Bool
is_authorized AuthVerdict.authorized = true
is_authorized _ = false

-- "auto:".
abbrev pub auto_prefix : List ℕ
auto_prefix = b'a' ∷ b'u' ∷ b't' ∷ b'o' ∷ b':' ∷ []

-- The command that an authorized frame causes.
unfoldable pub open_command : ℕ → List ℕ → List ℕ → List ℕ → GateCommand CommandBody
open_command unix command_id gate_id decision_id = record {
  command_id = command_id;
  rest = record {
    issued_ts = some (seconds_only unix);
    gate_id = gate_id;
    kind = open_gate;
    led = 0;
    actor = auto_prefix ++ decision_id;
    others = [];
  };
}

-- A command with the identifier and the time that its sender left out.
unfoldable pub completed_command : ℕ → List ℕ → GateCommand CommandBody → GateCommand CommandBody
completed_command unix uuid c =
    let stamp =
      if (elim c.rest.issued_ts [ none ↦ true | some t ↦ t.seconds == 0 ])
      then some
          (record { seconds = unix; nanos = elim c.rest.issued_ts [ none ↦ 0 | some t ↦ t.nanos ] })
      else c.rest.issued_ts in
    record {
      command_id = if is_empty c.command_id then uuid else c.command_id;
      rest = record c.rest { issued_ts = stamp };
    }

unfoldable pub receipt : ℕ → List ℕ → CommandAck
receipt unix command_id = record {
  command_id = command_id;
  received_ts = some (seconds_only unix);
  completed_ts = none;
  completed = false;
  success = false;
  error_text = [];
  state_after = GateState.unknown;
}

-- The switch on the latch commands.
unfoldable pub latch : CommandKind → List ℕ → Overrides → Overrides
latch latch_open gate m = set_override m gate kept_open
latch latch_close gate m = set_override m gate kept_closed
latch release_latch gate m = set_override m gate no_override
latch _ gate m = m

unfoldable pub is_unspecified : CommandKind → Bool
is_unspecified unspecified = true
is_unspecified _ = false

module _ {F : FloatApi} where
  abbrev pub on_bus : Server F → EventBroadcaster (Payload F) × ℕ → Server F
  on_bus s r = record s { bus = r.0 }

  unfoldable pub publish_decision : Server F → Clock → List ℕ → List ℕ → AuthDecision F → Server F
  publish_decision s now site_id decision_id d = on_bus s (
      publish_payload (λ _. d.gate_id) Kind.decision s.bus now.unix site_id (decided decision_id d))

  unfoldable pub publish_telemetry : Server F → Clock → List ℕ → Telemetry → Server F
  publish_telemetry s now site_id t =
      on_bus s (publish_payload (λ _. t.gate_id) Kind.telemetry s.bus now.unix site_id (reported t))

  unfoldable pub publish_fault : Server F → Clock → List ℕ → FaultEvent → Server F
  publish_fault s now site_id f =
      on_bus s (publish_payload (λ _. f.gate_id) Kind.fault s.bus now.unix site_id (failed f))

  unfoldable pub publish_command : Server F → Clock → List ℕ → GateCommand CommandBody → Server F
  publish_command s now site_id c =
      on_bus s
        (publish_payload (λ _. c.rest.gate_id) Kind.command s.bus now.unix site_id (ordered c))

  unfoldable pub publish_ack : Server F → Clock → List ℕ → List ℕ → CommandAck → Server F
  publish_ack s now site_id gate_id a =
      on_bus s (publish_as Kind.ack s.bus now.unix site_id gate_id (answered a))

  unfoldable pub decide : Server F → Clock → AuthorizeRequest F → AuthDecision F
  decide s now req = decide_at s.cfg s.store s.overrides req now.unix now.local

  unfoldable pub request_of : List ℕ → DetectionFrame F → AuthorizeRequest F
  request_of site_id frame = record {
    gate_id = frame.gate_id;
    frame_id = frame.frame_id;
    site_id = site_id;
    plates = frame.plates;
    vehicles = frame.vehicles;
    override_allowlist = false;
  }

  -- The identifiers are those that `generate_uuidv4` gives to the decision and to the command.
  unfoldable pub submit_detection :
      Server F
      → Clock
      → List ℕ
      → List ℕ
      → DetectionFrame F
      → Server F × Status × Option (AuthDecision F)
  submit_detection s now decision_id command_id req =
      let d = decide s now (request_of s.default_site_id req) in
      let told = publish_decision s now s.default_site_id decision_id d in
      let order = open_command now.unix command_id req.gate_id decision_id in
      if is_empty req.gate_id
      then (s, record { code = invalid_argument; message = "frame.gate_id is required" }, none)
      else (
        (if is_authorized d.verdict
            then publish_command told now s.default_site_id order
            else told),
        fine,
        some d,
      )

  unfoldable pub issue_command :
      Server F → Clock → List ℕ → GateCommand CommandBody → Server F × Status × Option CommandAck
  issue_command s now uuid req =
      let c = completed_command now.unix uuid req in
      let gate_id = c.rest.gate_id in
      let latched = record s { overrides = latch c.rest.kind gate_id s.overrides } in
      let told = publish_command latched now s.default_site_id c in
      let resp = receipt now.unix c.command_id in
      if is_empty req.rest.gate_id
      then (s, record { code = invalid_argument; message = "gate_id is required" }, none)
      else if is_unspecified req.rest.kind
      then (s, record { code = invalid_argument; message = "command kind must be set" }, none)
      else (publish_ack told now s.default_site_id gate_id resp, fine, some resp)

  unfoldable pub authorize :
      Server F → Clock → List ℕ → AuthorizeRequest F → Server F × Status × Option (AuthDecision F)
  authorize s now decision_id req =
      let d = decide s now req in
      if is_empty req.site_id
      then (s, record { code = invalid_argument; message = "site_id is required" }, none)
      else if is_empty req.gate_id
      then (s, record { code = invalid_argument; message = "frame.gate_id is required" }, none)
      else (publish_decision s now req.site_id decision_id d, fine, some d)
