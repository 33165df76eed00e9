-- ===== src/Lib.antt =====
-- A model of the policy engine of hypergate (Go): the Envoy ext_proc server that routes each request
-- to a chain of filters and answers Envoy with edits or a denial. Paths are from the root of the
-- repository; a Go name is given where it differs from the name here.
--
-- The parts and their files. Envoy opens a stream per request and sends up to six messages.
--   Grpc        internal/grpc: Handlers has the six handlers and the loop of Process; Messages the
--               messages and the reading of headers; Replies the answers, whose mutations are in
--               Mutators; Routing has resolveIdentity and resolve; Running has run with the chain's
--               timeout and concurrency bound; Limiter the chainLimiter counter under interleaving;
--               Shutdown the wait for quiet.
--   Router      internal/router/matcher.go: routes, match rules and default chains.
--   Selector    internal/selector: Traffic classes; Kinds, Validate and Parse for the selector
--               language; Sets for compiled lists; Address for ParseAddr and NormalizeHost.
--   Identity    internal/identity/index.go: Workload and Service values, and the Index of them that
--               the identity stream updates.
--   ClientIp    internal/clientip/clientip.go: the client's address behind trusted proxies.
--   Engine      internal/engine: Headers has the edits of header lists, Context and Access the
--               RequestContext; Filter has filters, chains and audit mode; Executor runs a chain;
--               Registry has the snapshots' contents and Lifecycle the references, the retirement
--               and the cleanup of one snapshot, step by atomic step.
--   Config      internal/config: Limits (chain.go), Routing, Redis, Server, and Parser, which has
--               ParseBytes from the decoded YAML on.
--   Policy      internal/policy/manager.go: Clients and Filters are the two loops of Apply, which reuse
--               or create Redis clients and filters; Manager has Apply and Close.
--   Filters     internal/filters: Jwt (jwt_auth), ApiKey (api_key and internal/config/filter_apikey.go),
--               RateLimiter (rate_limiter: the filter and the fixed window), Cors, Deny,
--               HeaderModifier and Correlation; Query has the loops over query strings that Jwt and
--               ApiKey share.
--   Operator    hyper-operator/internal/identity/index.go, the operator's map from addresses to workloads:
--               Pods, Slices (reference counts), Services (and nodes), Workloads for the lookups,
--               Histories for sequences of updates; Routes is hyper-operator/internal/routes.
--   Net         what the code uses of Go's net and net/netip.
--   Prelude     shared helpers: Go's strings as lists of bytes (Text), maps as association lists
--               (Maps), equality tests, Option as the result of what may fail.
--   Examples    concrete data, and each result below applied to it.
--
-- How state and control are modelled. A handler takes a Stream (the stream's state, its context, the
-- counters of the chains and a world) and gives the next one with the response. The world is a type
-- parameter: Redis, sidecars, caches and the clock, which only filters read and write. A filter is any
-- function from context and world to context, world and an optional error, so that the results hold
-- for every filter, those of internal/filters included. Errors are `none` or a value; which error it
-- is matters nowhere, only its presence. Loops are recursion on their lists; the loop over a query
-- string has fuel, as many rounds as the query has bytes, and each round takes one byte at least.
-- Concurrency is modelled where state is shared: the counter of a chain (Grpc.Limiter) and the life of
-- a snapshot (Engine.Lifecycle) are step relations whose steps are the atomic operations of the code,
-- run in any order; a stream's own messages are handled one after the other, as Process does.
-- Counters are numbers without a bound; the code's are int64, and one request adds 1 at most.
-- Maps iterate in the order of their list, which stands for the unspecified order of Go. The API key
-- filter draws the order of each range over its headers from its world (`range` of its Services), so
-- that two ranges over one map are independent.
--
-- Strings are lists of bytes; lower-casing is that of ASCII, which header names and class names are.
--
-- Parameters: net/netip (Netip), regexp, time.ParseDuration and the environment (Platform), yaml.Marshal
-- and the factories of clients and filters (Dialer, Factory), and whether a deadline has passed
-- (`expired` of a Server). The filters have the jwx library, the introspection endpoint, digests,
-- gjson, Redis, the local caches, the id generators and the clock as records of functions on their
-- world (Services, Store, Generators), with what Redis promises as a hypothesis (Counts).
--
-- Not modelled: the other algorithms of the rate limiter and the sort of its policies, the filters that
-- call sidecars (external_auth, firewall, sidecar, redis_metadata_enricher), the factory of filters, the
-- identity client, the Redis client, loading and watching of the configuration, TLS, logs and metrics,
-- the process's start and stop but for the wait for quiet, and the operator (hyper-operator) but for
-- its identity index and its routes. Failures of Send and Recv end a stream in the code; here every
-- message is received and sent.
pub mod Prelude
pub mod Net
pub mod Identity
pub mod Selector
pub mod Engine
pub mod Config
pub mod Router
pub mod ClientIp
pub mod Grpc
pub mod Policy
pub mod Filters
pub mod Operator
pub mod Examples
