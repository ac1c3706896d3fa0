-- ===== src/Session.antt =====
-- src/file_session.cc: one asynchronous Open, Stat, Read loop, Close session.
pub mod State
pub mod Plan
pub mod Ops
pub mod Issue
pub mod Opening
pub mod Handlers
pub mod Life
pub mod Refine
pub mod Reach
pub mod Alive
pub mod Protocol
pub mod Sizes
pub mod InFile
pub mod Tokens
pub mod Balance
