-- ===== src/Lib.antt =====
-- A verification library of the gate controller firmware.
--
-- The program has three parts: the firmware of the field controller at the gate, the server that
-- reads plates and decides, and the dashboard. This library models the firmware's own logic, the
-- server's reading of a plate's text, its decision who may enter, its services and its broadcast of
-- events, the dashboard's login and cache of events, and the virtual gate of the simulation.
--
-- Machine: firmware/components/gate_state_machine. `handle` is StateMachine::handle, `init_closed`,
-- `init_open` and `init_unknown` are the boot helpers, `state_to_string` and the like the to_string
-- overloads. Types has the enumerations, Invariant what holds between events, Graph the transition
-- diagram and the outputs, Histories sequences of events. An Outputs value keeps the valid
-- entries of the action array as a list.
--
-- Drivers: firmware/components/gate_drivers. Debounce is the debouncer that LimitSwitch and
-- SafetyBeam both implement, History relates it to the samples it saw; Relay and StatusLed keep the
-- levels last given to gpio_set_level. What gpio_get_level reads is an argument `raw`.
--
-- Control: firmware/components/gate_control. Controller has the object and its configuration,
-- Effects the pump task's work on one event (execute, manage_timers, apply_policies,
-- resolve_boot_position), Steps everything that happens to a controller. The tasks of the firmware
-- meet in one queue and only the pump touches the state machine, so a run of the firmware is a
-- list of steps: a poll of an input, the expiry of a timer, a command posted, a round of the pump.
--
-- Rpc: firmware/components/gate_rpc. Tracker is command_tracker.cpp: the command in flight. Framing is
-- grpc_framing.cpp: `push` is FrameAssembler::push, with the payload buffer as the list of the bytes
-- filled; Bytes reads the same stream byte by byte, Messages is about chunks and whole messages.
-- Session and Client are control_client.cpp. Session has the callbacks of nghttp2, cb_on_data_chunk
-- and cb_data_read, with the frame in flight: Drive and Inbound read chunks, Outbound writes frames,
-- Link joins two ends. Client has ControlClient: send_envelope, the acknowledgements, handle_command,
-- notify_gate_event, the pump's telemetry and deadline, and the backoff of task_main; nanopb and the
-- files it generates are the parameter `wire`, the clocks and the heap an argument `Reading`.
--
-- Firmware: firmware/main/main.cpp. `dispatch` is the command dispatcher of app_main, `fill` the
-- telemetry filler, `pump_gate` a round of the pump with its transition listener, `ota_done` the
-- callback of the updater; Safety is about any order of what happens to them.
--
-- Ota: firmware/components/gate_ota. Manifest is ota_manifest.cpp, with Hex and Rules for its two
-- functions. Updater is ota_updater.cpp: `run_inner` gives the calls of an attempt and its error, with
-- `accept`, `install`, `check_image` and `check_key` for its steps 2, 3 to 6, 4 and 5, and 5. cJSON and
-- libsodium are the parameter `Libraries`, and what the network, the heap, the flash and the update
-- library answer in one attempt is an `Attempt`. Chunks is about the read-back, Staged about what a
-- success means, Calls, Progress and Exclusive about the calls, the callbacks and `begin`.
--
-- Server: server/auth and server/fusion, on messages of shared/proto/gate_service.proto. Plate and
-- Allowlist are `normalize_plate` and `is_allowed_now` of allowlist_store.cpp, Decision has the
-- messages, Fusion is fusion_engine.cpp: `decide_at`, with the store as its two queries and floats
-- as a type with operations. The decision's id, time, actor and text are left out. An enumeration of
-- the messages has its named values only. Broadcast is server/dash/src/event_broadcaster.cpp: Queue
-- and History are about one subscription, Ring about the replay buffer, Stream about a subscriber
-- that comes back. Ctc is ctc_greedy_decode of server/inference/src/detail/cpu_algorithms.cpp, with
-- scores as a type with operations; Best is about the class of a row, Collapse is the definition of
-- CTC.
-- Services is server/rpc: field_controller_service.cpp and dashboard_service.cpp, with the unary calls
-- `submit_detection`, `issue_command` and `authorize`; its child Control has the Control stream, with
-- `open_control`, `read_envelope`, `writer_round` and `end_control` for the handler's four parts, and
-- the parts of Subscribe. Delivery, Resume, Orders, Latched and Dashboards are about them. The
-- identifiers that generate_uuidv4 draws and the clock are arguments.
-- Vision is server/vision: `build` is FrameBuilder::build, Scenario the parser of scenario_source.cpp,
-- with nlohmann's JSON as the parameter `JsonApi` and exceptions as the left of a sum, Playback its
-- from_json and next; Checked and Replay are about what is accepted and what is emitted.
--
-- Dashboard: dashboard/backend. EventCache is event_cache.cpp, with the sinks by their identifiers
-- and the calls of JsonCpp as an interface; Replay and Sinks are about what is remembered and who
-- is called. Auth is auth.cpp: hash_password, verify_password, check_credentials and the tokens,
-- with OpenSSL's key derivation and jwt-cpp as parameters; Texts is about the printers and readers of
-- the C and C++ libraries, written out as the standards say, Passwords about the check.
--
-- Simulation: simulation/src/virtual_gate.cpp. VirtualGate drives the same Machine and Tracker as the
-- firmware, with motors that move a position; Calls is a history of calls, Depth, Invariant, Safety,
-- Boots and Countdown are about the steps, Acks and Answers about commands, Travel, Redundant and Stranded about
-- where the gate ends.
--
-- Platform: the calls of esp_timer.h and freertos/queue.h that the firmware makes, whose code is
-- not in the repository, as interfaces with their documented behaviour, and plain instances.
--
-- Scenarios: concrete runs.
--
-- Numbers are natural numbers. The uint32_t counters and clocks of the source wrap at 2 ^ 32 where
-- they are computed; times in microseconds are uint64_t and cannot wrap, being at most 1000 * 2 ^ 32.
-- The loop of FrameAssembler::push takes fuel, one more than the bytes offered, since each pass
-- consumes a byte at least, and the loop of cb_on_data_chunk the number of bytes, since each push
-- consumes one at least; the read-back of an update takes the length of the image, since each pass reads
-- a byte at least. VirtualGate::apply_locked and step_locked call each other: `apply_locked`
-- takes the depth of these calls, of which 2 is enough. Every other loop that is modelled runs over
-- a list.
--
-- A command that arrives is one step of the firmware: that the gate's task, whose priority is higher,
-- can run between the dispatcher and the arming of the tracker is left out.
--
-- Not modelled: log lines, GPIO and task configuration, destructors, and the aborts of
-- ESP_ERROR_CHECK; the control client's sockets, TLS and HTTP/2 session and generated protobuf code;
-- the allowlist store's SQLite storage, with the admin service that passes on to it, the set-up of
-- gRPC, the camera and submit clients and the rest of the inference, which are calls of SQLite,
-- gRPC, OpenCV and TensorRT; the rest of the dashboard; the client and mock server of the simulation.
pub mod Base
pub mod Platform
pub mod Machine
pub mod Drivers
pub mod Control
pub mod Rpc
pub mod Server
mod Scenarios
pub mod Ota
pub mod Dashboard
pub mod Simulation
pub mod Firmware
