-- ===== src/Lib.antt =====
-- A model of an agent server: runs of graphs on threads, their state in two database tables, the
-- workers and the reaper that share them by leases, the circuit breaker in front of a remote service,
-- the broker that carries a run's events to its subscribers, the event stream of a thread that a client
-- reads from it, the crons, the assistants and their versions, and the authorization of requests.
--
-- Paths without a root are under src/agent_server/.
--
-- Base: what all parts share (Boolean tests, lists and updates over tables, results, JSON, dicts).
--
-- Runs: the tables `thread` and `runs` of src/agent_server/repo/orm.py, with the statuses of
--   src/agent_server/domain/enums.py. A table is a list of rows, an UPDATE with its WHERE clause is
--   `update_where`, and a function that opens a database session is one function from the tables before
--   to the tables after, since each is one transaction.
--   Runs/Status: domain/status_compat.py and usecase/execution/run_status.py (`start_run`,
--     `set_thread_status`, `interrupt_unowned_run`, `finalize_run`).
--   Runs/Lease: the lease operations of usecase/execution/worker_executor.py (`_acquire_and_load`,
--     `_release_lease`, `_heartbeat_loop`, `_requeue_drained_runs`, `_poll_postgres`).
--   Runs/Reaper: usecase/execution/lease_reaper.py. The rows that another transaction has locked, which
--     `skip_locked` leaves out, are an argument.
--   Runs/Prepare: the transaction of `_prepare_run` in usecase/execution/run_preparation.py.
--   Runs/Execute: `execute_run` of usecase/execution/run_executor.py. How the graph ends is an argument
--     (`Ending`), and so is what other transactions do while it runs.
--   Runs/Delete and Deletion: `delete_run` of controller/http/routers/runs.py.
--   Runs/Rules, Moves, Changes, Corrupt and Steps: the invariants of the tables, for a row, for an
--     operation and for any sequence of transactions. Runs/Claims and Outcome: what two writers of a
--     run do to each other.
--
-- Breaker: infra/circuit_breaker.py over the process-local storage, as calls one after another
--   (Breaker/Trips) and as calls that overlap (Breaker/Interleaved). The Redis storage is not modelled.
--
-- Broker: usecase/streaming/broker.py and infra/sse_utils.py. `aiter` is a `Reader` that is read round by
--   round; `Life` is any sequence of puts, finishes and other subscribers among its rounds.
--
-- Stream: usecase/streaming/v2. Blocks, ToolCalls, Messages and Interrupts are normalizers.py, Channels is
--   channels.py, Session, Events and Drain are session.py and `build_event` of protocol.py. `json.loads`
--   is an argument, the time stamp of an envelope is left out; what the brokers hold and the clock at
--   each poll are arguments. The parameters of a producer's event are a record and a namespace is a list
--   of texts, as the producers of the repository make them. Reconnect, Sequence, Requests, Subgraphs,
--   Idle and Payloads say what a client gets, by Induction over the stream of a run.
--
-- Assistants: usecase/assistant_service.py over the tables assistant and assistant_versions: Assistants
--   has the rows, Requests the parts of a request, Service the operations. The decision of the
--   authorization handler, the graphs that can be loaded, the UUID, the clock, the operator `@>` and the
--   equality of two configurations are arguments. An update is two transactions: what others commit
--   between them is an argument (`meanwhile`), nothing where calls come one after another (Operations).
--   The statements of one transaction see one state of the tables. Consistent and Operations are the invariant of both
--   tables, Heads and Outcomes the answers and Owners the users. Search and count, schemas and drawings are not
--   modelled.
--
-- Cron: the table `crons` and usecase/cron: the claim of the crons that are due (`get_due_crons`), the
--   fires of a tick (Cron/Scheduler: `_fire_cron`, `advance_next_run`), and the writes of the API
--   (Cron/Requests and Cron/Service). croniter and zoneinfo are an argument, the `Calendar`; that the
--   next occurrence after a time is later than that time is a hypothesis where it is needed.
--
-- Auth: the policy engines of auth/policy.py over the vocabulary of domain/policy.py (Auth/Policy, with
--   Coherence and Narrowing on what `check`, `require` and `access_filter` have to do with each other),
--   and the search for an authorization handler in auth/handlers.py (Auth/Handlers, Auth/Resolution). An
--   engine is any record of the three functions; a handler's answer is an argument. Auth/Filters is
--   auth/filters.py, from a filter to a condition over a row and what the condition selects (Compiled);
--   `@>` is an argument. Auth/Registry is auth/registry.py; Auth/Enforcement and Auth/Enforcer are
--   auth/enforcement.py, the wiring of an app and the dependency that is wired, with their proofs in
--   Auth/Wiring and Auth/Spoofing. The JSON body of a request is an argument.
--
-- Times are natural numbers of microseconds, or of the breaker's clock; they are only added and
-- compared. No loop needs fuel: `aiter` is a sequence of rounds, each one a function, and the loop of
-- a thread's stream goes over the list of its polls. `run_id` and `thread_id` are primary keys; an
-- update is over all rows that its WHERE clause selects, so no theorem on runs relies on that.
--
-- Not modelled: logging, tracing, the HTTP layer but for the deletion of a run, the deletion of
-- threads with the runs that go with them, the Redis broker and executor's queue, the rate limit and
-- the URL guard, the authorization of tools, OPA, the loading of graphs, the conversion of graph
-- events for the first stream protocol, the expiry of threads, the graphs themselves and the
-- LangGraph library, the hub, the shop and the web application; the serializers and Python's `str`
-- on numbers are arguments.
pub mod Base
pub mod Runs
pub mod Breaker
pub mod Broker
pub mod Cron
pub mod Auth
pub mod Stream
pub mod Assistants
pub mod Tests
