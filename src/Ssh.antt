-- ===== src/Ssh.antt =====
-- internal/collector/ssh: the parsers (parse.go), the profiles (profile.go) and Collect (ssh.go).
pub mod Parse
pub mod Collect
pub mod Software
pub mod Users
mod Tests
