-- ===== src/Client.antt =====
-- clients/devbox/src: the client's side of the program.
pub mod Recovery
pub mod Bridge
pub mod Health
pub mod Presets
pub mod MountLock
pub mod ApplyLock
