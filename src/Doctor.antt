-- ===== src/Doctor.antt =====
-- The box doctor, box/doctor/src: evidence, conditions, health documents and recovery.
pub mod Types
pub mod Classify
pub mod Conditions
pub mod Report
pub mod Parsing
pub mod Facts
pub mod Document
pub mod Collect
pub mod Recover
pub mod Profile
pub mod Snapshot
pub mod Parsers
