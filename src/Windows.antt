-- ===== src/Windows.antt =====
-- internal/collector/winrm and internal/collector/wmi: the parsers and the calls of the two
-- collectors of Windows hosts. Decoding JSON and parsing addresses are parameters.
pub mod Winrm
pub mod Wmi
pub mod Agree
pub mod Collect
pub mod Account
mod Tests
