-- ===== src/Examples.antt =====
-- Runs of the models on concrete inputs.
pub mod Hosts
pub mod Recovering
pub mod Reporting
pub mod Ports
pub mod Bridges
pub mod Spaces
pub mod Presets
pub mod Wiring
pub mod Locks
pub mod Snapshots
pub mod Profiles
pub mod Listed
pub mod Sizes
pub mod Applies
