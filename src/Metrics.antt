-- ===== src/Metrics.antt =====
-- src/metrics.cc, include/xrdhover/metrics.hh: the counters of a run, their split by data server, and
-- the rollup by site. A measured value is a number of 10^-9 units, none for a double that is
-- negative or not finite; counters are 64 bits wide. The host name and the figures of /proc are
-- arguments.
pub mod Data
pub mod Record
pub mod Rollup
pub mod Sums
pub mod Buckets
pub mod Snapshot
pub mod Percentile
pub mod Ranks
