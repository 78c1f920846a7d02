-- ===== src/Server/Services/Orders.antt =====
-- The commands that the unary calls put on the bus.
use alpr_li_dar_gate_automat.Base.{
  ◌≢◌, inl, inr, ℕ, false, List, [], ◌∷◌, some, if◌then◌else◌, bytes_eq, Bool-cases, ◌≡◌, arith,
}
use alpr_li_dar_gate_automat.Firmware.{CommandKind}
use alpr_li_dar_gate_automat.Rpc.Client.{GateCommand}
use alpr_li_dar_gate_automat.Server.Broadcast.{Kind, is_empty, publish_payload, publish_as, stamped}
use alpr_li_dar_gate_automat.Server.Broadcast.Ring.{Publication, envelope, log_from, publish_all}
use alpr_li_dar_gate_automat.Server.Decision.{AuthorizeRequest, authorized, FloatApi}
use alpr_li_dar_gate_automat.Server.Services.{
  decide_at, Server, Clock, Payload, CommandBody, DetectionFrame, ordered, decided, answered,
  publish_decision, publish_command, publish_ack, submit_detection, issue_command, open_command,
  completed_command, receipt, is_authorized, is_unspecified, decide, request_of, latch,
}
use alpr_li_dar_gate_automat.Server.Services.Control.{command_in}
use alpr_li_dar_gate_automat.Server.Services.Delivery.{orders_for}

-- The order to open a gate: stamped with the clock, and with the decision as its actor.
abbrev pub opening_order : ℕ → List ℕ → List ℕ → List ℕ → GateCommand CommandBody
opening_order unix command_id gate_id decision_id = record {
  command_id = command_id;
  rest = record {
    issued_ts = some (record { seconds = unix; nanos = 0 });
    gate_id = gate_id;
    kind = CommandKind.open_gate;
    led = 0;
    actor = b'a' ∷ b'u' ∷ b't' ∷ b'o' ∷ b':' ∷ decision_id;
    others = [];
  };
}

module _ {F : FloatApi} where
  abbrev publication : Kind → ℕ → List ℕ → List ℕ → Payload F → Publication (Payload F)
  publication kind unix site_id gate_id a = record {
    now = unix;
    site_id = site_id;
    gate_id = gate_id;
    event = record { event_id = 0; event_ts = 0; kind = kind; content = a };
  }

  -- What publishing does to a server, and the commands among what is published.
  abbrev Publishes : Server F → Server F → List (Publication (Payload F)) → Type 0
  Publishes s s' pubs = s' ≡ record s { bus = publish_all s.bus pubs }

  -- The request that asks about a frame at the server's own site.
  abbrev pub asked : Server F → DetectionFrame F → AuthorizeRequest F
  asked s req = record {
    gate_id = req.gate_id;
    frame_id = req.frame_id;
    site_id = s.default_site_id;
    plates = req.plates;
    vehicles = req.vehicles;
    override_allowlist = false;
  }

  -- A frame that names its gate is answered with the decision on it at the server's own site. If the
  -- decision authorizes, one order is published, to open this gate, under the new identifier, stamped
  -- with the clock and with the decision as its actor; otherwise no command is published.
  pub submit_detection-orders :
      (s : Server F) (now : Clock) (decision_id command_id : List ℕ) (req : DetectionFrame F)
      → is_empty req.gate_id ≡ false
      → let d = decide_at s.cfg s.store s.overrides (asked s req) now.unix now.local in
        let r = submit_detection s now decision_id command_id req in
        (pubs : List (Publication (Payload F))) × Publishes s r.0 pubs
        × (r.2 ≡ some d)
        × (d.verdict ≡ authorized
            → (gate : List ℕ) (id : ℕ)
            → orders_for gate (log_from id pubs) ≡ (
                if bytes_eq gate req.gate_id
                then opening_order now.unix command_id req.gate_id decision_id ∷ []
                else []))
        × (d.verdict ≢ authorized
            → (gate : List ℕ) (id : ℕ) → orders_for gate (log_from id pubs) ≡ [])
  unfolding submit_detection publish_decision publish_command publish_payload publish_as orders_for
      envelope stamped command_in open_command decide request_of
  submit_detection-orders s now decision_id command_id req named =
      let d = decide_at s.cfg s.store s.overrides (asked s req) now.unix now.local in
      let order = opening_order now.unix command_id req.gate_id decision_id in
      let told =
        publication Kind.decision now.unix s.default_site_id d.gate_id (decided decision_id d) in
      let sent = publication Kind.command now.unix s.default_site_id req.gate_id (ordered order) in
      elim (Bool-cases (is_authorized d.verdict)) [
        | inl opens ↦ (
          told ∷ sent ∷ [],
          ground (arith, named, opens),
          ground (arith, named),
          λ e gate id. ground arith,
          λ e. absurd (ground (arith, opens, e)),
        )
        | inr stays ↦ (
          told ∷ [],
          ground (arith, named, stays),
          ground (arith, named),
          λ e. absurd (ground (arith, stays, e)),
          λ e gate id. ground arith,
        )
      ]

  -- A command that names its gate and its kind is published, with the identifier and time that it
  -- lacks, for this gate, with a receipt under its identifier as the answer.
  issue_command-orders :
      (s : Server F) (now : Clock) (uuid : List ℕ) (req : GateCommand CommandBody)
      → is_empty req.rest.gate_id ≡ false
      → is_unspecified req.rest.kind ≡ false
      → let c = completed_command now.unix uuid req in
        let r = issue_command s now uuid req in
        (pubs : List (Publication (Payload F))) × (r.0 ≡ record s {
          bus = publish_all s.bus pubs;
          overrides = latch req.rest.kind req.rest.gate_id s.overrides;
        })
        × (r.2 ≡ some (receipt now.unix c.command_id))
        × ((gate : List ℕ) (id : ℕ)
            → orders_for gate (log_from id pubs)
              ≡ (if bytes_eq gate req.rest.gate_id then c ∷ [] else []))
  unfolding issue_command publish_command publish_ack publish_payload publish_as orders_for envelope
      stamped command_in completed_command
  issue_command-orders s now uuid req named set =
      let c = completed_command now.unix uuid req in
      let resp = receipt now.unix c.command_id in
      let sent = publication Kind.command now.unix s.default_site_id req.rest.gate_id (ordered c) in
      let told = publication Kind.ack now.unix s.default_site_id req.rest.gate_id (answered resp) in
      (
        sent ∷ told ∷ [],
        ground (arith, named, set),
        ground (arith, named, set),
        λ gate id. ground arith,
      )
