-- ===== src/Caller.antt =====
-- caller.go: CallTool and what it calls.
pub mod Run
pub mod Results
pub mod Dispatch
pub mod Call
pub mod Tally
pub mod Accounting
pub mod Paths
pub mod Sent
pub mod Arguments
pub mod Observed
pub mod Agreement
pub mod Accepted
pub mod Cached
pub mod Stages
pub mod Concurrent
pub mod Rejections
