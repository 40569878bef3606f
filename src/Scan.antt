-- ===== src/Scan.antt =====
-- internal/scan: the engine (engine.go) and the credentials that it is given (credentials.go).
pub mod Merge
pub mod Process
pub mod Credentials
pub mod Sealed
pub mod Outcome
pub mod Engine
mod Tests
