-- ===== src/Lib.antt =====
-- The control plane and the client runtime of pycloud_parallel, a platform that runs Python tasks,
-- services and jobs on nodes. An info center knows the nodes; a client picks candidates for its
-- calls and fails over between them; servers take HTTP requests in a bounded pool of threads, and
-- clients keep their connections to them in a pool.
--
-- Failover is src/pycloud_parallel/execution/failover.py. Failover.Classify turns the text of an
-- error into a kind of failure and decides what is moved to another candidate; Failover.Breaker is
-- the breaker that each candidate has, whose state is changed by `mark_candidate_success`,
-- `mark_candidate_failure`, `candidate_allowed` and `before_probe`.
--
-- Http.Server is BoundedThreadPoolHTTPServer of controlplane/bounded_http_server.py, and Http.Pool
-- is HttpConnectionPool of controlplane/http_connection_pool.py, with its requests in
-- Http.Pool.Request. The state that the threads share
-- is a record; the code between two points at which another thread may run is a function, and
-- Steps has the relation of all interleavings of these functions, of which Invariant is about the
-- reachable states. Whether the constructor of a connection returns is an argument of a round of the
-- pool.
--
-- JobQueue is JobQueueManager of controlplane/job_queue.py: the jobs and their order of waiting in
-- JobQueue itself, the calls of clients in Calls, the task pool that jobs share in TaskPool, the
-- scheduler thread in Loop. Steps has the interleavings of calls and rounds, a block under the lock
-- being one step, for histories in which `close` forgets only a thread that has ended; Orphans adds
-- those in which its join times out and the forgotten thread goes on beside the next, and Stands has
-- what holds of these too. How a run ends is an argument of `run_job`, since user code decides it. The digest of a token is a parameter.
--
-- Signals is ResourceSignalStore of controlplane/resource_signals.py, which the info center reads in
-- pages.
--
-- InfoCenter.DataRefs is the registry of data references of InfoCenterState in
-- controlplane/infocenter_state.py.
--
-- InfoCenter.Nodes is the registry of nodes of the same class: registration, heartbeats, loss,
-- schedule and profile updates, the index of nodes by service name, and list_service_routes; the
-- predicates of routing and deployment are Scheduling, of controlplane/scheduling_policy.py. Index,
-- Profiles, Startup, Reports, Calls, Routes and Listing are the code, the other modules what is
-- proved. The endpoint that the parser of URLs reads from an address and the order of routes, whose
-- key has a floating-point score, are parameters; the file of profiles and requests as protocol
-- buffers are not modelled. That parser's ValueError for a malformed port is left out, and a call of
-- list_service_routes is one step, though the source holds the lock only for the copy of the nodes.
--
-- NodeControl is what NodeControlState of controlplane/nodecontrol_state.py keeps of the tasks of
-- task pools. Submit has submit_pool_tasks in its blocks under the lock, Stop what ends a pool,
-- Calls the results, cancellations and heartbeats, Events the tasks that the executor has finished;
-- Answers composes the blocks of a submission, Steps has the interleavings of all of them, Consistent what each of them keeps, Invariant and Always the
-- invariant, and Safety what follows for its callers. Decoding a payload, the executor and the
-- serialization of a result are outside: what they do decides which step follows. A uuid is a
-- number that is counted up.
--
-- CreateRequests is the table of creation requests of the same class, by which a request that is
-- repeated gets the resource of the first one; which resources stand is an argument of each call.
--
-- Scheduler is the choice among candidates of execution/scheduler.py; which of them have the best
-- score, a float, is a parameter.
--
-- RouteCache is what _DiscoveryRouteCache of controlplane/discovery_route_cache.py keeps of each
-- route; its breakers are those of Failover.Breaker.
--
-- Sessions is the lease and the status of a session over its replicas, of
-- controlplane/session_model.py, with the recovery state of execution/recovery_state.py.
--
-- Base has tests on native numbers, lists, lists for sets, association lists for dictionaries, texts as lists of
-- code points, and equality as an instance argument.
--
-- Times are whole microseconds, and a call takes the clock's reading as an argument. Texts are
-- folded and stripped in ASCII only. No fuel is used: loops are recursion on a list, or a step of
-- a relation for each round. Sockets, files, other processes, serialization and logging are not
-- modelled.
pub mod Base
pub mod CreateRequests
pub mod Failover
pub mod Http
pub mod InfoCenter
pub mod JobQueue
pub mod NodeControl
pub mod RouteCache
pub mod Scheduler
pub mod Scheduling
pub mod Sessions
pub mod Signals
