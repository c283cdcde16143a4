-- ===== src/Icmp.antt =====
-- prober/icmp.go: the ICMP probe.
--
-- Icmp/Sequence is `getICMPSequence`, Icmp/Message the packets and the reply loop, Icmp/Probe
-- `ProbeICMP`. Bytes are numbers.
pub mod Sequence
pub mod Message
pub mod Probe
mod Tests
