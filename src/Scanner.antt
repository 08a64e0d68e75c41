-- ===== src/Scanner.antt =====
-- internal/scanner: streams, consumers and Raft peers of a cluster, read and classified.
pub mod Api
pub mod Classify
pub mod Renames
pub mod Scan
pub mod Thresholds
pub mod Liveness
pub mod Peers
pub mod Owner
pub mod Streams
pub mod StreamReport
