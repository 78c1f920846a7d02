-- ===== src/Scenarios/Wiring.antt =====
-- The whole firmware on a concrete history.
use alpr_li_dar_gate_automat.Platform.{simple_timers, simple_queues}
use alpr_li_dar_gate_automat.Control.Controller.{Config, poll_beam}
use alpr_li_dar_gate_automat.Control.Safety.{IsSafe}
use alpr_li_dar_gate_automat.Control.Boot.{booted}
use alpr_li_dar_gate_automat.Machine.Types.{sliding, State}
use alpr_li_dar_gate_automat.Firmware.{Firmware, Order, open_gate, begin_ota}
use alpr_li_dar_gate_automat.Firmware.Safety.{
  Happening, arrives, surrounds, pumps_round, client_turn, ota_ends, happen_all, happen_all-IsSafe,
}
use alpr_li_dar_gate_automat.Rpc.Client.{GateCommand, Reading, Wire, unknown}
use alpr_li_dar_gate_automat.Base.{List, [], ◌∷◌, ℕ, none, some, true, false, refl}

abbrev quick_gate : Config
quick_gate = record {
  sm = record { gate_type = sliding; motor_timeout_ms = 30_000; auto_close_ms = 0 };
  reverse_on_beam = true;
}

abbrev noon : Reading
noon = record {
  timer_us = 9_000_000;
  tv_sec = 1_800_000_000;
  tv_usec = 0;
  free_heap = 100_000;
  minimum_free_heap = 90_000;
}

abbrev silent_wire : Wire Order
silent_wire = record {
  encode = λ size env. none;
  decode = λ bytes. none;
  gate_id_size = 32;
  version_size = 32;
  command_id_size = 40;
  error_text_size = 96;
  literal = λ text. [];
}

abbrev wired : Firmware simple_timers simple_queues
wired = record {
  gate = booted quick_gate 1 0 0 [] true;
  client = record {
    cfg = record {
      gate_id = [];
      fw_version = [];
      reconnect_min_ms = 1_000;
      reconnect_max_ms = 30_000;
      telemetry_period_ms = 1_000;
      command_deadline_ms = 40_000;
    };
    out_queue = [];
    connected = true;
    telemetry_seq = 0;
    last_telemetry_ms = 0;
    last_wire_state = unknown;
    tracker = record { id = []; terminal_ok = State.closed; deadline_ms = 0; armed = false };
  };
  ota_running = false;
  ota_cmd_id = [];
  reboot_armed = false;
}

abbrev order : ℕ → GateCommand Order
order i = record { command_id = i ∷ []; rest = record { kind = open_gate; led = 0 } }

abbrev busy_day : List Happening
busy_day =
    arrives true noon (order 1)
    ∷ pumps_round noon
    ∷ surrounds (poll_beam 1)
    ∷ arrives true noon
        (record { command_id = 2 ∷ []; rest = record { kind = begin_ota; led = 0 } })
    ∷ client_turn noon true
    ∷ ota_ends noon (some "download: transfer failed or truncated")
    ∷ []

happen_all-IsSafe_example : IsSafe (happen_all silent_wire wired busy_day).gate
happen_all-IsSafe_example =
    happen_all-IsSafe silent_wire quick_gate 1 0 0 [] true wired busy_day refl
