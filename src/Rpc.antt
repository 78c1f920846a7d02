-- ===== src/Rpc.antt =====
-- firmware/components/gate_rpc: the parts of the gRPC client that hold no socket.
pub mod Tracker
pub mod Framing
pub mod Session
pub mod Client
