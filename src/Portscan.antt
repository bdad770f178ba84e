-- ===== src/Portscan.antt =====
-- src/matasano/util/portscan.go: the ports that a scan probes and their order, and how long it waits for
-- an answer.
pub mod Ranges
pub mod Policy
mod Tests
