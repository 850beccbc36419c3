-- ===== src/InfoCenter.antt =====
-- The info center, which knows the nodes, their services and the data that is staged on them.
pub mod DataRefs
pub mod Nodes
