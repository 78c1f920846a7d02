-- ===== src/Control/Boot.antt =====
-- From the constructor through `start`.
use alpr_li_dar_gate_automat.Base.{
  not, sym, false, if◌then◌else◌, ap, Bool, refl, true, ◌∙◌, List, [], arith, ℕ, ◌∷◌, ◌≡◌,
}
use alpr_li_dar_gate_automat.Drivers.SafetyBeam
use alpr_li_dar_gate_automat.Control.Execution.{execute-Keeps}
use alpr_li_dar_gate_automat.Drivers.LimitSwitch
use alpr_li_dar_gate_automat.Platform.Api.{TimerApi, QueueApi}
use alpr_li_dar_gate_automat.Machine.{handle, init_closed, init_open, init_unknown}
use alpr_li_dar_gate_automat.Machine
use alpr_li_dar_gate_automat.Machine.Types.{faulted, opened, closed, State, Event, initializing}
use alpr_li_dar_gate_automat.Drivers.Relay
use alpr_li_dar_gate_automat.Drivers.Relay.Contact.{new-IsValid as relay_valid}
use alpr_li_dar_gate_automat.Control.Controller.{
  EspErr, esp_err_invalid_state, GateController, Config, Stimulus, poll_limit_open,
  poll_limit_closed, poll_beam, new,
}
use alpr_li_dar_gate_automat.Control.Effects.{manage_timers, init_by, resolve_boot_position}
use alpr_li_dar_gate_automat.Control.Steps.{
  step, run, start, settle, prelatch, on_poll_limit_open, on_poll_limit_closed, on_poll_beam,
}
use alpr_li_dar_gate_automat.Control.Invariant.{
  step-IsSound, IsSound, resolve_boot_position-IsSound, run-IsSound,
}

-- The state that one reading of the two limit switches stands for.
abbrev pub boot_state : Bool → Bool → State
boot_state false true = closed
boot_state true false = opened
boot_state _ _ = faulted

module _ {T : TimerApi} {Q : QueueApi Event} where
  new-IsSound : (cfg : Config) (o c b : ℕ) → IsSound (new {T = T} {Q = Q} cfg o c b)
  unfolding new Machine.new Relay.new
  new-IsSound cfg o c b =
      ground (arith, T.create_inactive, relay_valid {T = T} Relay.default_config)

  settle-IsSound : (c : GateController T Q) (ps : List Stimulus) → IsSound c → IsSound (settle c ps)
  unfolding settle
  settle-IsSound c [] v = v
  settle-IsSound c (poll_limit_open raw ∷ ps) v =
      settle-IsSound (on_poll_limit_open c raw) ps
        (unfold step in step-IsSound c (poll_limit_open raw) v)
  settle-IsSound c (poll_limit_closed raw ∷ ps) v =
      settle-IsSound (on_poll_limit_closed c raw) ps
        (unfold step in step-IsSound c (poll_limit_closed raw) v)
  settle-IsSound c (poll_beam raw ∷ ps) v =
      settle-IsSound (on_poll_beam c raw) ps (unfold step in step-IsSound c (poll_beam raw) v)
  settle-IsSound c (_ ∷ ps) v = settle-IsSound c ps v

  prelatch-IsSound :
      (c : GateController T Q) → IsSound c → c.sm.state ≡ initializing → IsSound (prelatch c)
  unfolding prelatch handle
  prelatch-IsSound c v e = ground arith

  settle-sm : (c : GateController T Q) (ps : List Stimulus) → (settle c ps).sm ≡ c.sm
  unfolding settle
  settle-sm c [] = refl
  settle-sm c (poll_limit_open raw ∷ ps) =
      settle-sm (on_poll_limit_open c raw) ps ∙ (unfold on_poll_limit_open in ground arith)
  settle-sm c (poll_limit_closed raw ∷ ps) =
      settle-sm (on_poll_limit_closed c raw) ps ∙ (unfold on_poll_limit_closed in ground arith)
  settle-sm c (poll_beam raw ∷ ps) =
      settle-sm (on_poll_beam c raw) ps ∙ (unfold on_poll_beam in ground arith)
  settle-sm c (_ ∷ ps) = settle-sm c ps

  started-IsSound :
      (c : GateController T Q) (b : Bool) → IsSound c → IsSound (record c { started = b })
  started-IsSound c b v = ground arith

  registered-IsSound :
      (c : GateController T Q) (b : Bool) → IsSound c → IsSound (record c { registered = b })
  registered-IsSound c b v = ground arith

  -- The controller just before it resolves its position.
  abbrev settled : GateController T Q → List Stimulus → GateController T Q
  settled c ps = prelatch (settle (record c { started = true }) ps)

  either-IsSound :
      (b : Bool) (x y : GateController T Q × EspErr)
      → IsSound x.0
      → IsSound y.0
      → IsSound (if b then x else y).0
  either-IsSound true x y v w = v
  either-IsSound false x y v w = w

  start-IsSound :
      (c : GateController T Q) (ps : List Stimulus) (created : Bool)
      → IsSound c
      → c.sm.state ≡ initializing
      → IsSound (start c ps created).0
  unfolding start
  start-IsSound c ps created v e =
      let waiting = settle (record c { started = true }) ps in
      either-IsSound c.started (c, esp_err_invalid_state) _ v
        (registered-IsSound (resolve_boot_position (prelatch waiting)) true (
          resolve_boot_position-IsSound (prelatch waiting) (
            prelatch-IsSound waiting
              (settle-IsSound (record c { started = true }) ps (started-IsSound c true v))
              (ap (λ m. m.state) (settle-sm (record c { started = true }) ps) ∙ e))))

  -- A controller that `start` has brought up.
  abbrev pub booted : Config → ℕ → ℕ → ℕ → List Stimulus → Bool → GateController T Q
  booted cfg o c b ps created = (start (new {T = T} {Q = Q} cfg o c b) ps created).0

  pub booted-IsSound :
      (cfg : Config) (o c b : ℕ) (ps : List Stimulus) (created : Bool)
      → IsSound (booted cfg o c b ps created)
  unfolding new Machine.new
  booted-IsSound cfg o c b ps created =
      start-IsSound (new cfg o c b) ps created (new-IsSound cfg o c b) refl

  -- However the inputs bounce while `start` waits, and whatever happens to the controller after,
  -- its relays, snapshot and timers agree with the state of the machine.
  pub run-booted-IsSound :
      (cfg : Config) (o c b : ℕ) (ps : List Stimulus) (created : Bool) (ss : List Stimulus)
      → IsSound (run (booted cfg o c b ps created) ss)
  run-booted-IsSound cfg o c b ps created ss =
      run-IsSound (booted cfg o c b ps created) ss (booted-IsSound cfg o c b ps created)

  resolve_facts :
      (c : GateController T Q)
      → let d = resolve_boot_position c in
        (d.sm.state
          ≡ boot_state (LimitSwitch.is_active d.limit_open) (LimitSwitch.is_active d.limit_closed))
        × (d.sm.beam_clear ≡ c.sm.beam_clear)
        × (d.beam ≡ c.beam)
  unfolding resolve_boot_position init_by manage_timers init_closed init_open init_unknown
  resolve_facts c =
      let open_active = LimitSwitch.is_active c.limit_open in
      let closed_active = LimitSwitch.is_active c.limit_closed in
      let (m, o) = init_by open_active closed_active c.sm in
      ground (arith, execute-Keeps (record c { sm = m }) o)

  prelatch_facts :
      (c : GateController T Q)
      → c.sm.beam_clear ≡ true
      → ((prelatch c).sm.beam_clear ≡ not (SafetyBeam.is_blocked c.beam))
        × ((prelatch c).beam ≡ c.beam)
  unfolding prelatch handle
  prelatch_facts c h = ground arith

module _ (T : TimerApi) (Q : QueueApi Event) where
  -- Where the gate stands after a first `start` is what the debounced limit switches say (both or
  -- neither asserted is Faulted), and the latch forbids closing exactly if the beam is blocked.
  pub start_position :
      (cfg : Config) (o c b : ℕ) (ps : List Stimulus) (created : Bool)
      → let d = booted {T = T} {Q = Q} cfg o c b ps created in
        (d.sm.state
          ≡ boot_state (LimitSwitch.is_active d.limit_open) (LimitSwitch.is_active d.limit_closed))
        × (d.sm.beam_clear ≡ not (SafetyBeam.is_blocked d.beam))
  unfolding start new Machine.new
  start_position cfg o c b ps created =
      let waiting = settle (record (new {T = T} {Q = Q} cfg o c b) { started = true }) ps in
      let clear =
        ap (λ m. m.beam_clear)
          (settle-sm (record (new {T = T} {Q = Q} cfg o c b) { started = true }) ps) in
      let (s, l, same) = resolve_facts (prelatch waiting) in
      let (l', same') = prelatch_facts waiting clear in
      (s, l ∙ (l' ∙ ap (λ x. not (SafetyBeam.is_blocked x)) (sym (same ∙ same'))))
