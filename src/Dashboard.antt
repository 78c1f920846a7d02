-- ===== src/Dashboard.antt =====
-- dashboard/backend: what the dashboard remembers of the event stream, and who may log in.
pub mod EventCache
pub mod Auth
