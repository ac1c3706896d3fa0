-- ===== src/Witness.antt =====
-- The theorems at concrete inputs.
pub mod Data
pub mod Session
pub mod Parts
pub mod Workload
pub mod Export
pub mod Report
pub mod Ending
