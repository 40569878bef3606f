-- ===== src/Snmp.antt =====
-- internal/collector/snmp/snmp.go: the SNMP collector.
pub mod Values
pub mod Tables
pub mod Collect
pub mod Rows
pub mod Ports
pub mod Mac
pub mod Family
mod Tests
