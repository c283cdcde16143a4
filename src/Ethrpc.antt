-- ===== src/Ethrpc.antt =====
-- prober/ethrpc.go: the probe of an Ethereum node.
--
-- Ethrpc/Arguments turns the texts of a contract call's arguments into values, Ethrpc/Batch has the
-- requests that go out in one batch and the loop over its results, Ethrpc/Calls the parameters
-- of a contract call, Ethrpc/Probe is `ProbeETHRPC`, and Ethrpc/Reference has the balances again
-- with one list in place of two.
pub mod Arguments
pub mod Batch
pub mod Calls
pub mod Probe
pub mod Reference
pub mod Soundness
mod Tests
