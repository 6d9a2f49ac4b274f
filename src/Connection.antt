-- ===== src/Connection.antt =====
-- src/process-connection.ts: how a new connection is recognised and handed on (`Processor`), and
-- how the frames of an HTTP/2 connection are captured (`Frames`, `Capture`).
pub mod Frames
pub mod Capture
pub mod Processor
pub mod Reassembly
pub mod Proxied
pub mod Tests
