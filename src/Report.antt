-- ===== src/Report.antt =====
-- src/report_command.cc, include/xrdhover/report_command.hh: the report of a finished run, from the
-- result.json that the file sink wrote.
pub mod Data
pub mod Discover
pub mod Aggregate
pub mod Command
pub mod Human
pub mod Found
pub mod Figures
pub mod Totals
