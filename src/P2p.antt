-- ===== src/P2p.antt =====
-- src/p2p: the messages of two nodes.
pub mod Wire
pub mod Sync
