-- ===== src/Http.antt =====
-- prober/http.go: parts of the HTTP probe.
pub mod Matchers
pub mod Transport
pub mod Response
pub mod Probe
mod Tests
