-- ===== src/Lib.antt =====
-- NovaAIRouter is a gateway in Go: backends register endpoints at their node, the nodes of a cluster
-- tell one another of their endpoints by gossip, and a request is routed to a local or a remote
-- endpoint through pools of workers, behind circuit breakers and health checks.
--
-- The parts and their files:
-- - Prelude: the names shared by all: texts as bytes, maps as association lists with distinct keys,
--   32- and 64-bit integers with their wrap-around, times in nanoseconds.
-- - CircuitBreaker (internal/business/circuitbreaker/circuitbreaker.go): `Allow`, `RecordSuccess`,
--   `RecordFailure`, `Reset`. Counters has the bounds, Machine the state machine.
-- - HealthCheck (internal/business/healthcheck/healthcheck.go): passive health of paths; Streaks
--   compares it with the history of the calls.
-- - Pool.Remote, Pool.Requests and Pool.Manager (internal/pool/pool.go): the counters of requests in
--   flight to remote endpoints, a request pool with its queue and workers, and the pools by path. An
--   operation on a channel or an atomic counter is one event, a list of events is an interleaving.
-- - Models.Node and Models.Endpoint (internal/models/node.go, internal/models/endpoint.go): the
--   stores of remote nodes and of local endpoints, below both registries.
-- - Registry.Local (internal/registry/local/local.go): registration, heartbeats, removal and aging of
--   local endpoints, on Models.Endpoint.
-- - Registry.Facade (internal/registry/registry.go): what the node announces of its own paths.
-- - Gossip.Message and Gossip.Sync (internal/gossip/message/message.go,
--   internal/gossip/sync/sync.go): peers, state messages and broadcasts, on Models.Node.
-- - Gossip.Server (internal/gossip/gossip.go): the HTTP handlers of gossip as one step per request;
--   Refused has their errors, Delivery what one node's post does at another.
-- - Gossip.Discovery (internal/gossip/discovery/discovery.go): nodes that announce themselves over UDP.
-- - Balancer (internal/business/balancer/balancer.go): the weighted choice among the least loaded
--   nodes; Weighted has the draw, Selected what is picked. `float64` and `math/rand` are parameters.
-- - Router (internal/business/router/router.go): candidates for a path, and in Handler the answer,
--   on the registries, the pools' counters and the balancer.
-- - Forwarder (internal/business/forwarder/forwarder.go): forwarding to another node, with the
--   counters of Pool.Remote; Loops follows a request through several nodes, Counts has every outcome.
-- - ConfigFile (internal/config/config_manager.go): the configuration file and its typed getters.
-- - Config (internal/config/validator.go): which configurations are accepted.
-- - Access (internal/business/auth.go, internal/admin/auth.go): which requests are let in.
-- - Plugin (models_plugin/): the router of models. Plugin has the state and the sessions, Select the
--   choice of a backend, Chat a request with its failover, Election the masters and the messages,
--   Discover and Ports what `doSync` finds. The proofs stand in Counted, Failover, Split and below
--   Discover. Pointers to backends are addresses in a heap.
--
-- A method that holds its lock throughout is one step. The clock and the random ids are arguments;
-- what the code takes from `fmt.Sscanf` is a parameter. Durations stay below 2^63 nanoseconds where
-- a theorem says so, counters of 32 and 64 bits wrap around, and the theorems on runs bound the
-- number of calls where a counter could. Only `tryFailover` runs on fuel, since it does not always end:
-- its theorems hold for any amount, and a request whose first backend answers needs none. Answers over HTTP are parameters, a body is what the JSON decoder
-- makes of it. Not modelled: logging, the admin interface, reading the configuration, the broadcast of
-- configurations, the plugin's registration with its router, and the commands.
pub mod Prelude
pub mod CircuitBreaker
pub mod HealthCheck
pub mod Pool
pub mod Models
pub mod Gossip
pub mod Plugin
pub mod Forwarder
pub mod Registry
pub mod Balancer
pub mod Router
pub mod Config
pub mod ConfigFile
pub mod Access
