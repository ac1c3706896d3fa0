-- ===== src/Workload.antt =====
-- src/workload_spec.cc, include/xrdhover/workload_spec.hh: the workload file. Its names are in the
-- children.
pub mod Data
pub mod Fields
pub mod Host
pub mod Sections
pub mod Sinks
pub mod Pattern
pub mod Target
pub mod Canonical
pub mod Validate
pub mod Patterns
pub mod Targets
pub mod Accepted
pub mod Stable
pub mod RoundTrip
