-- ===== src/Tests.antt =====
-- Runs of the model on concrete inputs, and the theorems at inputs that meet their hypotheses.
mod Outside
mod Arguments
mod Caching
mod Settings
mod Calls
mod Access
mod Interleavings
mod Connecting
mod Limits
mod Programs
mod Harness
mod Registry
mod Repeated
mod Concurrent
mod Copies
