-- ===== src/Lib.antt =====
-- A model of fd-open-data-mcp, a server that crawls open financial data through a pool of proxies.
-- The paths below are from the repository's root.
--
-- The parts, and how they interact. A fetch asks the proxy pool for an exit: the selector
-- (fd_open_data_mcp/proxy/selector.py) walks the active proxies, skips the units whose circuit is
-- open, and takes a rate token. The outcome is classified by the ban rules, and the class moves the
-- circuit of the unit; open circuits come back by the probe job. The fetch log of outcomes demotes
-- the functions that a cluster cannot reach and suppresses the paths that fail permanently. The
-- coverage of a series says what to fetch, and the price pool which series to fetch early. A crawl
-- plan is split into work items, and the items go through the lease queue to the workers. Runs of
-- policies are launched and closed by the ticks of the reconciler, on a cluster that has room, and
-- cancelled by a compare-and-set. Searches are answered through a cache.
--
-- The files:
-- Base and its children: tests, lists, equality, dicts, decimal texts, sets as ascending lists
--   and dates.
-- Proxy/Circuit: fd_open_data_mcp/proxy/circuit.py, on the Redis hashes; get_state,
--   record_outcome, probe_transition, open_for_probe, all_circuits, sources_all_proxies_open.
-- Proxy/BanRules: fd_open_data_mcp/proxy/ban_rules.py; _query_rules, _load_rules with its cache,
--   the three matchers and classify. The regular expression engine is a parameter.
-- Proxy/Pool, Proxy/RateLimit, Proxy/Selector: fd_open_data_mcp/proxy/pool.py, rate_limit.py and
--   selector.py. What Redis replies is an argument of each call.
-- Proxy/Probe: fd_open_data_mcp/probe/job.py; what a probe finds is a parameter.
-- Stream/Lease: the in-process queue and run_worker of fd_open_data_mcp/stream/lease.py; what
--   the other workers do between two steps is an argument.
-- Stream/RedisLease: RedisLeaseQueue of that file, and the interface that both queues fill; the
--   json module and the order of HGETALL are parameters.
-- Stream/Envelope: fd_open_data_mcp/stream/envelope.py; the event ids and the wire format.
-- Stream/Replay: fd_open_data_mcp/stream/replay.py; the replay of a range of the stream in chunks.
-- Stream/Memory: fd_open_data_mcp/stream/memory.py; the consumer groups.
-- Crawl/Plan, Crawl/Split: fd_open_data_mcp/crawl/plan.py and split.py.
-- Fetch/Settings: the int of a setting, as demote.py and suppress.py there read theirs.
-- Fetch/Coverage, Fetch/Suppress, Fetch/Demote, Fetch/ActivePool: the files of
--   fd_open_data_mcp/fetch with these names.
-- Graph: fd_open_data_mcp/graph/manager.py; the cached graph, the breadth-first and the depth-first
--   traversal. networkx is an interface; a load may raise with a part of the graph built.
-- SearchCache: fd_open_data_mcp/search_cache.py.
-- Crawl/Estimate: estimate_fetches of fd_open_data_mcp/refresh/reconciler.py.
-- Refresh/Runs: fd_open_data_mcp/refresh/runs.py.
-- Refresh/Policy, Refresh/Reconciler, Refresh/Fleet: fd_open_data_mcp/refresh/reconciler.py; the
--   date windows, the tick (Probe, Launch and Tick) and pick_cluster. The launcher, the planner,
--   croniter and ZoneInfo are parameters.
-- Refresh/Events: sequences of ticks, cancels, ad-hoc launches, operations of the workers and restarts.
--   The queues of leased runs are memory of the process, as lease_queue_for has them with no Redis
--   client, which is how the reconciler calls it; a restart loses them.
--
-- The tables of fd_open_data_mcp/models.py stand with the parts that use them. A time is a number
-- on a clock that the caller passes, a rate is in thousandths and a share in hundredths. Texts are
-- lists of code points.
--
-- Bounds and fuel: `digits` has one more unit than the number, and a number has no more digits than
-- that; `range_by` has as many as the list is long, and each step is at least one; the worker loop
-- is given fuel above its bound on the items; the breadth-first loop has two units above the degrees
-- of all nodes, and each round takes one entry off its queue. All else recurs on its data.
--
-- Not modelled: Redis, the database and the HTTP calls themselves, two threads of one process inside
-- an operation, logging, and the parts that are views, wrappers of third-party calls or reports
-- (panel, server, adapters, catalog). The Kubernetes manifests and calls of the launchers, the
-- planner, the dispatch of fetches, the event stream over Redis and the sync engine are not modelled.
pub mod Base
pub mod Proxy
pub mod Stream
pub mod Crawl
pub mod Fetch
pub mod SearchCache
pub mod Refresh
pub mod Graph
