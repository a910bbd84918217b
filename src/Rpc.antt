-- ===== src/Rpc.antt =====
-- src/rpc.rs, src/rpc_transport.rs, src/classification_rpc.rs: how the node is asked and its
-- answers are checked.
pub mod Error
pub mod Transport
pub mod Bounded
pub mod Call
pub mod Envelope
pub mod Membership
pub mod Snapshot
pub mod Complete
