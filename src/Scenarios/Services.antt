-- ===== src/Scenarios/Services.antt =====
-- A server with one gate: a command to reboot is issued, then the gate connects, and a car arrives.
use alpr_li_dar_gate_automat.Server.Fusion.{decide_at}
use alpr_li_dar_gate_automat.Server.Services.Dashboards.{
  dashboard_delivers, run_dashboard, with_taken,
}
use alpr_li_dar_gate_automat.Server.Broadcast.Stream.{matching, unseen}
use alpr_li_dar_gate_automat.Base.{
  ◌≢◌, replicate, ℕ, true, false, List, [], ◌∷◌, ◌++◌, some, none, ◌≡◌, refl, arith, if◌then◌else◌,
  bytes_eq, length, inl,
}
use alpr_li_dar_gate_automat.Firmware.{CommandKind}
use alpr_li_dar_gate_automat.Rpc.Client.{Telemetry, GateCommand, GateState}
use alpr_li_dar_gate_automat.Scenarios.Server.{
  hundredths, settings, residents, clear_plate, monday_night,
}
use alpr_li_dar_gate_automat.Server.Broadcast
use alpr_li_dar_gate_automat.Server.Broadcast.{drain_now, DashboardEvent, Subscriber, Kind}
use alpr_li_dar_gate_automat.Server.Broadcast.Ring.{
  Publication, log_from, publish_all, publish_all-IsLogged, new-IsLogged, envelope,
}
use alpr_li_dar_gate_automat.Server.Decision.{authorized, denied, force_close}
use alpr_li_dar_gate_automat.Server.Services.{
  Server, Clock, Payload, CommandBody, DetectionFrame, Envelope, ordered, submit_detection,
  issue_command, decide, request_of, publish_decision,
}
use alpr_li_dar_gate_automat.Server.Services.Control.{
  write_replay, open_dashboard, open_control, command_in,
}
use alpr_li_dar_gate_automat.Server.Services.Delivery.{orders_for, run_writer}
use alpr_li_dar_gate_automat.Server.Services.Resume.{control_delivers}
use alpr_li_dar_gate_automat.Server.Services.Orders.{submit_detection-orders, asked, opening_order}
use alpr_li_dar_gate_automat.Server.Services.Latched.{
  latch_close_holds, serve_all, ServiceCall, authorizes,
}

abbrev gate : List ℕ
gate = b'g' ∷ []

abbrev order_of : CommandKind → GateCommand CommandBody
order_of kind = record {
  command_id = b'7' ∷ [];
  rest = record {
    issued_ts = none;
    gate_id = gate;
    kind = kind;
    led = 0;
    actor = b'a' ∷ [];
    others = [];
  };
}

abbrev sent : CommandKind → Publication (Payload hundredths)
sent kind = record {
  now = 2_000;
  site_id = b's' ∷ [];
  gate_id = gate;
  event = record {
    event_id = 0;
    event_ts = 0;
    kind = Kind.command;
    content = ordered (order_of kind);
  };
}

abbrev before : List (Publication (Payload hundredths))
before = sent CommandKind.reboot ∷ []

abbrev after : List (Publication (Payload hundredths))
after = sent CommandKind.open_gate ∷ []

abbrev server : Server hundredths
server = record {
  bus = publish_all (Broadcast.new 8 0) before;
  overrides = [];
  cfg = settings;
  store = residents;
  default_site_id = b's' ∷ [];
}

abbrev clock : Clock
clock = record { unix = 2_000; local = monday_night }

abbrev greeting : Telemetry
greeting = record {
  gate_id = gate;
  sent_ts = none;
  gate_state = GateState.closed;
  limit_open = false;
  limit_closed = true;
  safety_beam_clear = true;
  uptime_sec = 1;
  free_heap_bytes = 0;
  min_free_heap = 0;
  firmware_version = [];
  seq = 0;
}

abbrev car : DetectionFrame hundredths
car = record { gate_id = gate; frame_id = 1; plates = clear_plate ∷ []; vehicles = [] }

control_delivers_example :
    let opened = open_control server clock (some (Envelope.telemetry greeting)) in
    (others : List (Subscriber (Payload hundredths))) × (sub : Subscriber (Payload hundredths))
    × ((publish_all opened.0.bus after).subs ≡ others ++ sub ∷ [])
    × (opened.2 ≡ some (record { gate_id = gate; sub = length others }))
    × (run_writer (length sub.queue) sub
        ≡ orders_for gate (log_from 1 before) ++ orders_for gate (log_from 3 after))
unfolding Broadcast.publish Broadcast.new
control_delivers_example =
    control_delivers server clock greeting 8 before after
      (publish_all-IsLogged 8 (Broadcast.new 8 0) [] before (omega arith) (new-IsLogged 8 0))
      (omega arith) refl (inl refl)

abbrev page : Broadcast.DashboardSubscription
page = record {
  site_id = [];
  gate_ids = gate ∷ [];
  include_decisions = false;
  include_telemetry = false;
  include_faults = false;
  include_ota = false;
  since_event_id = 0;
}

dashboard_delivers_example :
    let opened = open_dashboard server page in
    let old = unseen page (log_from 1 before) in
    let later = log_from 2 after in
    (others : List (Subscriber (Payload hundredths))) × (sub : Subscriber (Payload hundredths))
    × (live : Subscriber (Payload hundredths)) × (opened.0.bus.subs ≡ sub ∷ [])
    × (opened.2 ≡ some 0)
    × (write_replay (replicate (length old) true) (drain_now sub).1 ≡ (old, true))
    × ((publish_all (with_taken opened.0 (length server.bus.subs)).bus after).subs
        ≡ others ++ live ∷ [])
    × (run_dashboard (length live.queue) live ≡ matching page later)
unfolding Broadcast.publish Broadcast.new Broadcast.offer_all
dashboard_delivers_example =
    dashboard_delivers server page 8 before after
      (publish_all-IsLogged 8 (Broadcast.new 8 0) [] before (omega arith) (new-IsLogged 8 0))
      (omega arith) (inl refl)

-- The command to reboot goes out on the new stream, on which it was not issued.
reboot_sent_again : orders_for gate (log_from 1 before) ≡ order_of CommandKind.reboot ∷ []
unfolding orders_for envelope Broadcast.stamped command_in
reboot_sent_again = refl

submit_detection-orders_example :
    let d = decide_at settings residents [] (asked server car) clock.unix clock.local in
    let r = submit_detection server clock (b'1' ∷ []) (b'2' ∷ []) car in
    (pubs : List (Publication (Payload hundredths))) × (r.0
      ≡ record server { bus = publish_all server.bus pubs })
    × (r.2 ≡ some d)
    × (d.verdict ≡ authorized
        → (g : List ℕ) (id : ℕ)
        → orders_for g (log_from id pubs)
          ≡ (if bytes_eq g gate then opening_order 2_000 (b'2' ∷ []) gate (b'1' ∷ []) ∷ [] else []))
    × (d.verdict ≢ authorized → (g : List ℕ) (id : ℕ) → orders_for g (log_from id pubs) ≡ [])
submit_detection-orders_example =
    submit_detection-orders server clock (b'1' ∷ []) (b'2' ∷ []) car refl

abbrev calls : List (ServiceCall hundredths)
calls = authorizes clock (b'3' ∷ []) (request_of (b's' ∷ []) car) ∷ []

latch_close_holds_example :
    let s' =
      serve_all
        (issue_command server clock (b'2' ∷ []) (order_of CommandKind.latch_close)).0
        calls in
    let d = decide s' clock (request_of s'.default_site_id car) in
    (d.verdict ≡ denied)
    × (d.deny_reason ≡ force_close)
    × ((submit_detection s' clock (b'4' ∷ []) (b'5' ∷ []) car).0
        ≡ publish_decision s' clock s'.default_site_id (b'4' ∷ []) d)
latch_close_holds_example =
    latch_close_holds server clock (b'2' ∷ []) (order_of CommandKind.latch_close) calls clock
      (b'4' ∷ []) (b'5' ∷ []) car refl refl (refl, tt) refl
