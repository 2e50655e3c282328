-- ===== src/Model.antt =====
-- src/model: records, segments and Merkle trees.
pub mod Samples
pub mod Framing
pub mod Record
pub mod Merkle
pub mod Segment
