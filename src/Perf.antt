-- ===== src/Perf.antt =====
-- cmd/snmptrap-relay-perf/main.go: the load generator.
pub mod Encode
pub mod Elements
pub mod Integers
pub mod Traps
pub mod Load
pub mod Sending
pub mod Profile
pub mod Run
pub mod Output
