-- ===== src/Lib.antt =====
-- Verification of the services that the omnimemory memory system shares between its nodes.
--
-- The program keeps memories for agents. Its nodes (handlers of messages) and its adapters of
-- embedding providers, databases and caches rest on a few stateful parts, and these are modelled:
--
--   Lifecycle: the states of a memory and the validator of its transitions, of
--   src/omnimemory/enums/enum_lifecycle_state.py and src/omnimemory/nodes/
--   node_memory_lifecycle_orchestrator/validators/validator_lifecycle_transition.py. Graph has
--   the documented edges and the histories of a memory.
--   RateLimiter: `ProviderRateLimiter` of
--   src/omnimemory/handlers/adapters/adapter_rate_limiter.py, by which the embedding client
--   limits its requests and tokens. Window has the lemmas on the sliding window, History the
--   limiter against the log of what it granted, Acquire the call that waits.
--   RateLimiter/Registry is `RateLimiterRegistry` of the same file, with the validation of
--   src/omnimemory/models/config/model_rate_limiter_config.py.
--   Breaker: `AsyncCircuitBreaker` of src/omnimemory/adapters/adapter_resource_manager.py, which
--   wraps the calls of external services, with the settings of
--   src/omnimemory/models/utils/model_circuit_breaker_config.py. Breaker/Simple is the other
--   breaker, `CircuitBreaker` of src/omnimemory/adapters/adapter_concurrency.py, and Agreement
--   compares the two. Phase is the abstract machine that a breaker implements.
--   Backoff: `retry_with_backoff` and `RetryManager` of
--   src/omnimemory/adapters/adapter_retry_utils.py. Attempts is about the attempts that a call
--   makes, Statistics about what the manager counts.
--   ResourcePool: `ResourceHandle` and `ResourcePool` of adapter_resource_manager.py. Calls
--   counts what each call moves between the pool and its users, Ownership and Capacity draw the
--   conclusions, Manager is `ResourceManager`, the pools by type, and Shutdown is about its end.
--   PriorityLock and FairSemaphore of adapter_concurrency.py, each with the tasks that use it as
--   a step relation (PriorityLock/Exclusion, FairSemaphore/Permits).
--   ConnectionPool: `AsyncConnectionPool` of adapter_concurrency.py, with the tasks that share
--   it. Blocked is about a pool at its capacity, Crowd about many tasks that ask at once.
--   Memory: the table of memories and the handlers of their lifecycle, in
--   src/omnimemory/nodes/node_memory_lifecycle_orchestrator/handlers/. Expire and Retry are
--   `HandlerMemoryExpire` of handler_memory_expire.py, Archive `HandlerMemoryArchive` of
--   handler_memory_archive.py with its paths and files in Archive/Files, and Tick
--   `HandlerMemoryTick` of handler_memory_tick.py. Revisions and Trail are about histories of
--   the table, Expire/Outcome about what an expiration answers, Quiet about a handler that is
--   alone with its database, Archive/Kept and Archive/Orphans about what becomes of an archive,
--   Archive/Short about a write that is cut short, and Tick/Emits about the events of a tick.
--   Subscriptions: `HandlerSubscription` of src/omnimemory/handlers/handler_subscription.py,
--   with its table in PostgreSQL and its cache in Valkey: `subscribe`, `unsubscribe` and the
--   statements they send. Reads has `notify` and `list_subscriptions`, Rebuild the filling of the
--   cache at the start, and Restart what that leaves. Ideal, Writes and Contract compare the
--   handler with an ideal record of who is subscribed to what, Looks is about two reads of a
--   topic, Ghost, Listed and Resubscribe about ids that only the cache has.
--   Health: the health checks of src/omnimemory/adapters/adapter_health_manager.py. Checks is
--   `HealthCheckManager`, with the breakers of Breaker, and Resources is `HealthManager`, with
--   those of Breaker/Simple. Overall is about the overall status, Window about the limiter of
--   requests, Silent and Stuck about the breakers.
--   Metrics: `Counter`, `Gauge` and `Histogram` of
--   src/omnimemory/adapters/adapter_metrics_counter.py. Unbounded and Totals compare a metric
--   with one that drops nothing, Order and Recency say which labels a metric keeps.
--   Migration: `MigrationProgressTracker` of
--   src/omnimemory/models/foundation/model_migration_progress.py: its files, batches, counters,
--   cached percentages, retries and error types.
--
-- The parts are used side by side; the manager keeps pools, the registry keeps limiters. The
-- handlers of the memory lifecycle share the table and run behind breakers of Breaker/Simple; the
-- validator of Lifecycle says which of their moves are legal.
--
-- How the code is modelled. An object is a record, and an operation a function from the object
-- before to the object after it. Where callers share an object that changes, it stands in a list
-- and is referred to by its place: limiters in the registry, handles in a pool. The code runs on
-- one event loop, and what it does between two waits is one step: so a section under an asyncio
-- lock that does not wait inside is a step, and the theorems range over all sequences of steps of
-- all tasks. The thread lock of `CircuitBreaker` makes each of its methods a step. An instant or
-- a duration is a whole number of microseconds; each read of the clock is an argument. A float
-- factor of the configuration is what the code computes with it; a percentage is an exact
-- fraction. Counters are unbounded, as they are in Python.
--
-- Parameters. The operations of `str` and the identifier pattern, the resource factory, the
-- answer of a resource's `is_healthy`, the random jitter, and what other tasks do while `acquire`
-- sleeps are arguments. A resource is its `id`, a request its UUID. The database runs each
-- statement as one step; whether it answers, fails, or fails after it took effect, and what other
-- tasks do before and after it, are arguments of the call. The calendar, the paths of the
-- platform, JSON and gzip, the replies of the projection reader and the answers of the orphan
-- tracker are arguments too, and so are the connections that are created and which of them are
-- found valid. The pattern of a topic, the ids that `subscribe` draws, what the table and the
-- cache of subscriptions answer, and how a check function ends are arguments as well.
--
-- Bounds and fuel. The loop of `handle_with_retry` is bounded by `max_retries`, as in the source,
-- those of `retry_with_backoff` and of the connection pool by the attempts allowed, and that of
-- the rebuild of the cache by the number of rows, which is enough with batches of one row or
-- more. The loop of `ProviderRateLimiter.acquire` needs fuel: its rounds. The fuel is shown to be
-- enough where no other task takes the free slots, for any sleep that takes at least a
-- microsecond. With other tasks, the source promises no end either.
--
-- Not modelled. Logging, tracing and correlation ids; averages of hold and waiting times; rates
-- per second and the estimate of a migration's end; free metadata; the delays between retries;
-- the managers of named pools and the end of a connection pool; the reducer of navigation
-- histories, the crawler; the expiry of keys of the cache; calls of the
-- subscription handler that interleave, but for what happens during a rebuild of the cache; the
-- pages of its lists, whose order PostgreSQL leaves open; health checks that run at the same time;
-- a cancelled operation of a retry; the validation of labels. Database queries, network clients,
-- the runtime's wiring, configuration and the scripts are input and output, or data without logic.
pub mod Backoff
pub mod Breaker
pub mod ConnectionPool
pub mod FairSemaphore
pub mod Health
pub mod Lifecycle
pub mod Memory
pub mod Metrics
pub mod Migration
pub mod Prelude
pub mod PriorityLock
pub mod RateLimiter
pub mod ResourcePool
pub mod Subscriptions
