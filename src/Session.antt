-- ===== src/Session.antt =====
-- `Session` of vc-core/src/lib.rs: what it does with a packet, its start, and its loop.
pub mod World
pub mod Audio
pub mod Handshake
pub mod Control
pub mod Incoming
pub mod Outgoing
pub mod Frames
pub mod Capture
pub mod Playout
pub mod Succeeds
pub mod State
pub mod Loop
pub mod Start
pub mod Lifetime
pub mod Handle
pub mod Counted
pub mod Speech
pub mod Keeps
pub mod Kept
pub mod Forward
pub mod Welcome
pub mod Pairing
pub mod Broadcast
pub mod Greeting
pub mod Tables
pub mod Forged
pub mod Replayed
pub mod Delivery
pub mod Joining
pub mod States
