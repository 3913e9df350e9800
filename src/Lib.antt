-- ===== src/Lib.antt =====
-- The control plane and the stream plane of the AceStream orchestrator, written in Go.
--
-- The control plane starts AceStream engines in containers behind VPN nodes. Before it provisions
-- one it asks a circuit breaker, takes ports from the port allocator, and reserves a place on a
-- VPN node in the state store. The stream plane reserves an engine in the store for each stream,
-- reads MPEG-TS from it into a ring buffer, and serves all clients of the stream from the ring.
--
-- - Breaker (app/orchestrator/internal/controlplane/circuitbreaker/breaker.go): the breaker as a
--   record with `can_execute`, `record_success`, `record_failure` and `force_reset`, which are
--   CanExecute, RecordSuccess, RecordFailure and ForceReset; Breaker.Manager is the manager with
--   its map of breakers. The clock is an argument.
-- - Ports (app/orchestrator/internal/controlplane/engine/ports.go): the allocator as a record with
--   one function per method; Ports.Engine is AllocateEnginePorts with its rollback, Ports.Labels
--   the reservations from container labels, Ports.Vpn the ranges of VPN containers. The splitting
--   and scanning of text is a parameter.
-- - State (app/orchestrator/internal/state/store.go, types.go): engines, their load and pending
--   counters; State.Vpn is SelectAndClaimVPN and the forwarded slot, State.Select is
--   SelectAndClaimEngine, State.Nodes the VPN nodes, State.Streams the streams and their samples
--   (OnStreamStarted, OnStreamPrebuffering, OnStreamEnded, AppendStat), State.Scaling replicas,
--   intents, grace periods and the lookahead layer.
-- - Events (app/orchestrator/internal/state/event_log.go): record, clear and snapshot.
-- - Controller (app/orchestrator/internal/controlplane/engine/controller.go): EnsureMinimum and
--   computeDesiredReplicas; Controller.Stop is canStopEngine and selectTerminationCandidates,
--   Controller.Intents the steps of doReconcile that add intents, and executeIntent with the
--   breaker, Controller.Rebalance is rebalanceDensity. They work on State and Breaker.Manager.
-- - Provision (app/orchestrator/internal/controlplane/engine/provisioner.go): Provision.Nodes is
--   CheckVPNSchedulable and selectVPNContainer, Provision.Schedule is electForwardedEngine,
--   ScheduleNewEngine and ReleaseSpec, Provision.Command the command line and the other texts,
--   Provision.Execute is ExecuteSpec over an interface of Docker. They work on State and Ports.
-- - Health (app/orchestrator/internal/controlplane/engine/health.go): trackers, probe results,
--   starvation and evictions; `check_and_manage` is checkAndManage on given probe results.
-- - Lifecycle (app/orchestrator/internal/controlplane/vpn/lifecycle.go): reconcileScale and the
--   nodes that heal or drain; Lifecycle.Destroy is DestroyNode of node_provisioner.go over an
--   interface of Docker, Lifecycle.Sync the whole of `reconcile`, syncManagedSnapshot and
--   monitorHealth. They work on State, Leases and AirVpn; ProvisionNode is an argument.
-- - Ring (app/orchestrator/internal/proxy/buffer/ring.go): the ring as a record; `write`,
--   `store_chunk`, `read_after`, `write_after_to` and `reset` are Write, storeChunk, ReadAfter,
--   WriteAfterTo and Reset. Ring.History says what the slots hold, against all chunks stored.
-- - Clients (app/orchestrator/internal/proxy/stream/client_manager.go): Add, Remove, UpdateStats,
--   HeartbeatHLSClient and evictGhosts on the clients of a stream.
-- - Hls (app/orchestrator/internal/proxy/hls/segmenter.go): the worker of Segmenter.run, which
--   reads chunks from Ring and cuts them by Ts, and Manifest, Segment and MemoryUsage.
-- - HlsCache (app/orchestrator/internal/proxy/hls/cache.go): Get, Set and a round of gcLoop.
-- - Ts (app/orchestrator/internal/proxy/ts): null packets, FindPCR, ScanForLastPCR, IsKeyframe.
-- - Leases (app/orchestrator/internal/controlplane/vpn/credentials.go): the pool of VPN
--   credentials; `acquire_lease`, `release_lease`, `restore_leases` and `configure` are
--   AcquireLease, ReleaseLease, RestoreLeases and Configure.
-- - AirVpn (app/orchestrator/internal/controlplane/vpn/airvpn_ports.go): rebuild, acquirePort and
--   releasePort; the ports that the credentials name are an argument.
-- - Prelude: numbers and their text, tests, lists, sets and maps that these share.
--
-- A method that locks a mutex for its whole body is one function; a sequence of calls is a
-- sequence of these, in any order. A Go map that is ranged over is a list, whose order is one
-- order of the range.
--
-- Loops that do not recur on a list have fuel. `search_https` gets it from its caller, and two
-- rounds are enough when a port may be taken, since only one port is avoided; when that port
-- alone is free, no fuel is enough, as the loop of the source never ends. `scan_for_last_pcr` has
-- one round more than bytes, and each round drops a byte. `write` has one round more than bytes,
-- and each round takes a chunk of one byte or more, the target size being positive. `scan_ports`
-- has the rounds of its `for`. `process_from` has one round more than bytes, each of which drops a
-- byte or more, and `enforce` a round for each entry of the list, which loses one in each round.
-- `digits` has 20 rounds, one for each digit of a 64-bit number.
--
-- Integers are natural numbers without overflow where the source's ints stay far below 2 ^ 63;
-- bytes and the counter of null packets wrap where the source's do.
--
-- Not modelled: the ring's bitrate estimate, ProvisionNode and the scores of VPN servers, stream
-- managers and the hub, and the loops that call the parts above on a timer.
-- The runtime aggregates of engines are not, as the store only keeps them. Input and output are
-- not modelled either: log lines, metrics but the breaker's, HTTP handlers, Docker, SQL, Redis and
-- the reading of the configuration.
pub mod Prelude
pub mod Breaker
pub mod Ports
pub mod Ts
pub mod Ring
pub mod Hls
pub mod HlsCache
pub mod Controller
pub mod Provision
pub mod Lifecycle
pub mod Health
pub mod State
pub mod Events
pub mod Clients
pub mod Leases
pub mod AirVpn
