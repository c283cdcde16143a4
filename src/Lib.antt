-- ===== src/Lib.antt =====
-- A model of the exporter: a server that, on a request of /probe, runs a probe of a configured
-- module against a target and answers with the metrics that the probe registered.
--
-- The parts, with the files of the repository that they model:
--
--   Base        lists, texts, integers and maps as Go has them, for the other files
--   Float64     the operations of Go's float64 that the exporter calls, as parameters
--   Metrics     the registry of a probe (prometheus/client_golang): names that are registered once,
--               gauges with their last value; a probe is a computation over it that may panic
--   History     prober/history.go: `ResultHistory` with Add, List, GetById and GetByTarget
--   Config      config/config.go: the types and defaults; Config/Unmarshal the `UnmarshalYAML`
--               methods, Config/Encoding `isCompressionAcceptEncodingValid`, Config/Patterns
--               `Regexp`, Config/Reload `SafeConfig` and `ReloadConfig`
--   Ip          `ipHash` of prober/utils.go, over addresses as lists of bytes
--   Protocol    `chooseProtocol` of prober/utils.go
--   Tls         prober/tls.go: the expiries and the names of certificates; Tls/Report
--               the gauges of a connection, under the names of prober/prober.go
--   Dns         `validRRs` and `validRcode` of prober/dns.go; Dns/Probe is `ProbeDNS`
--   Http        prober/http.go: Http/Matchers the matchers of bodies and headers, Http/Transport
--               `transport` and its traces, Http/Response what is done with the response, Http/Probe
--               `ProbeHTTP`
--   Tcp         prober/tcp.go: Tcp/Dial is `dialTCP`, Tcp/Entries the loop over the query and
--               response entries, Tcp/Probe `ProbeTCP`
--   Icmp        prober/icmp.go: Icmp/Sequence the ids and sequence numbers, Icmp/Message the payload
--               and the loop that waits for a reply, Icmp/Probe `ProbeICMP`
--   Grpc        prober/grpc.go: the health check and `ProbeGRPC`
--   Json        prober/json.go and prober/graphql.go: `ProbeJSON` and `ProbeGraphQL`
--   Btc         prober/btcrpc.go: `ProbeBTCRPC`
--   Ethrpc      prober/ethrpc.go: Ethrpc/Arguments the arguments of contract calls, Ethrpc/Batch and
--               Ethrpc/Calls the batch of requests, Ethrpc/Probe `ProbeETHRPC`
--   Handler     prober/handler.go: `Handler` and `DebugOutput`; Handler/Timeout is `getTimeout`,
--               Handler/Host is `setHTTPHost` and Handler/Logging is `scrapeLogger`
--   Probers     the call in `Handler` of the probes of the map `Probers`, with what each of them is
--               given of the request and the module
--   Main        main.go: Main/Run is `run` from the flags to the exit status, Main/Url the external URL
--               and the prefix of the routes, Main/Routes the patterns of the endpoints,
--               Main/Mux their registration, Main/Results the results of probes, Main/Pages the
--               endpoints, Main/Exporter the process as a state that events change
--
-- How they interact: `Handler` looks the module up in the configuration, computes the timeout,
-- runs the probe in a fresh registry and adds its verdict to the history. It is written over a
-- record of the probes and of what other packages do, `Server`; Probers puts the probes of the
-- other parts into that record. The probes for HTTP, TCP, ICMP, DNS and gRPC resolve their target
-- with `chooseProtocol` in the same registry, in which a second registration of a name panics;
-- those that speak TLS set the gauges of Tls/Report. A reload replaces the configuration that
-- later requests see, and the endpoint /logs reads the history; both are events of Main/Exporter,
-- with the requests of /probe.
--
-- Bounds: an id of the history is an int64 that wraps around at 2 ^ 63, a hash is a number below
-- 2 ^ 32, and a size limit is compared with 2 ^ 63 - 1; the loops are recursions on lists, so no
-- fuel is needed. A mutex makes each operation of the history and each reload one step.
--
-- What other packages do is a parameter: the network and the resolver, sockets, the clients of the
-- protocols, the encoding of messages, regular expressions, YAML, JSON, ABIs and big numbers, TLS, the
-- clock, float64, the limit of an allocation and the patterns that imported packages register with
-- the mux of net/http. What comes in over a connection is an input: for ICMP the reads up to the timeout,
-- for TCP the lines that can be scanned. Deadlines are left out, and so are the messages of the
-- probes, which are an input of the scrape logger.
--
-- Not modelled are running out of memory, the parsing of the flags, the delivery of signals and the HTTP server with its
-- dispatch, which main.go only calls, and `weiToEther` of prober/ethrpc.go, which only calls math/big.
pub mod Base
pub mod Float64
pub mod Metrics
pub mod History
pub mod Config
pub mod Ip
pub mod Protocol
pub mod Tls
pub mod Dns
pub mod Http
pub mod Tcp
pub mod Icmp
pub mod Grpc
pub mod Json
pub mod Btc
pub mod Ethrpc
pub mod Handler
pub mod Probers
pub mod Main
