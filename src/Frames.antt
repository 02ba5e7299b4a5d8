-- ===== src/Frames.antt =====
-- crates/pcsuite-proto: the framed bodies of the control service (src/payload1.rs) and the packets of the
-- mirror socket (src/screen.rs).
pub mod Payload
pub mod Screen
mod Tests
