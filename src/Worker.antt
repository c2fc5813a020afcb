-- ===== src/Worker.antt =====
-- cmd/worker: the node that takes events and queries from tunnels to ClickHouse.
pub mod Columns
pub mod Lines
pub mod Tables
pub mod Ensuring
pub mod Queries
pub mod Answers
pub mod Tunnels
pub mod Listing
