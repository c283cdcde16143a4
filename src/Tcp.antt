-- ===== src/Tcp.antt =====
-- prober/tcp.go: the TCP probe.
--
-- Tcp/Dial is `dialTCP`, Tcp/Entries the loop of `ProbeTCP` over the query and response entries,
-- Tcp/Probe `ProbeTCP`; Tcp/Upgrade has how often a probe upgrades its connection to TLS.
pub mod Dial
pub mod Entries
pub mod Probe
pub mod Upgrade
pub mod Total
mod Tests
