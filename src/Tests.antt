-- ===== src/Tests.antt =====
-- Runs of the definitions at concrete inputs, and the theorems at inputs that meet their hypotheses.
mod Diff
mod Flow
mod Version
mod Firewall
mod Mtu
mod MtuManager
mod Mikrotik
mod Opnsense
mod Scan
mod Dns
mod Trace
mod Backup
mod Ping
mod Terminal
mod Logs
mod Session
mod Monitor
