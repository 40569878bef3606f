-- ===== src/Discovery.antt =====
-- internal/discovery/discovery.go
pub mod Expand
pub mod Loops
pub mod Reference
pub mod Cover
pub mod Ranges
pub mod Probe
pub mod Sweep
mod Tests
