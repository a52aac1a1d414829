-- ===== src/Spec.antt =====
-- clients/devbox/src/spec: the rules by which devbox.yml is resolved and checked.
pub mod ClientPorts
pub mod Issues
pub mod Phases
pub mod MemoryLimits
pub mod McpPorts
pub mod PortClaims
pub mod Sections
pub mod References
pub mod Resolve
pub mod Resolution
