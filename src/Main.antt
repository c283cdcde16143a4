-- ===== src/Main.antt =====
-- main.go: the exporter's process.
--
-- Main/Run is `run` from the flags to the exit status, Main/Url has the external URL and the prefix
-- of the routes, which Main/Prefix is about, Main/Routes the patterns of the endpoints and Main/Mux
-- their registration, Main/Pages the HTTP endpoints besides /probe, Main/Exporter the state and the
-- events that change it, Main/Results the results of probes, Main/Reachable the states that a run
-- gets to, and Main/Links what holds in them.
pub mod Url
pub mod Pages
pub mod Exporter
pub mod Results
pub mod Reachable
pub mod Links
pub mod Run
pub mod Routes
pub mod Mux
pub mod Prefix
mod Tests
