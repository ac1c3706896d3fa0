-- ===== src/FileSink.antt =====
-- src/file_sink.cc, include/xrdhover/file_sink.hh: the sink that writes the snapshots of a run, one JSON
-- document to a line, and its result.
pub mod Documents
pub mod Writer
pub mod Counts
pub mod Buckets
pub mod Result
pub mod Written
pub mod Servers
pub mod Rolled
pub mod Storable
pub mod Reported
