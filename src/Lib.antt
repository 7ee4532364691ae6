-- ===== src/Lib.antt =====
-- superkube, a small Kubernetes in one binary: an API server over a database, controllers and a
-- scheduler that work on that database, and node agents that run pods.
--
-- Base: Boolean tests, lists, maps and texts, integers, and what tests decide.
-- Models: the API objects of src/models/*.rs, one module to a file, field by field. A `HashMap` is
--   an association list whose first entry of a key counts; `i32` and `i64` are integers.
-- Ipam: src/node/network/ipam.rs. `Ipam.allocate` and `Ipam.release` take the locked state and
--   return it.
-- Lease: src/db/lease.rs. `Lease.try_acquire` takes the `leases` table, the time and whether the
--   database answers; `Lease.attempts` is a sequence of calls of several servers.
-- Scheduler: src/server/scheduler.rs. Quantity has `parse_cpu_millicores` and
--   `parse_memory_bytes`, Usage the requests, the usage, `node_fits` and `score_node`, Labels and
--   Topology the selectors and affinity terms, Selection the candidate loop and
--   `find_node_for_pod`. The operations of `f64` are a parameter, `Scheduler.Float.F64`; the laws
--   of IEEE 754 that theorems use are `Scheduler.Float.F64Laws` and
--   `Scheduler.Quantity.Units.F64Exact`.
-- Store: the server's state. `Store.World` has the tables, `Store.Env` what comes from outside:
--   random UUIDs, the clock and the statements that the database refuses. An `Action` takes a world
--   and gives a result or an `Error` of src/error.rs, and the world after it. Store.Rows has the rows
--   of migrations/001_initial.sql and serde_json as a parameter, Store.Bus the events of
--   src/server/bus.rs.
-- PodRepository: src/db/repository.rs, `PodRepository`, a function for each method. Conversions has
--   the columns that `create` writes and `row_to_pod`. An upsert asks for the key first and for the
--   uid then, as Postgres does.
-- NodeRepository, EventRepository: the same for `NodeRepository` and `EventRepository`, and
--   `emit_event` of src/server/controller.rs.
-- Scheduler.Pass: `schedule_pending_pods`, over the three repositories.
--
-- Store.Repository: what the other repositories of src/db/repository.rs share. A `Layout` is a
--   table, its key and its upsert; `get_object`, `create_object`, `list_objects`, `delete_object`
--   and `update_object` are the statements on it, and Store.Repository.Laws has their laws for
--   every layout with `LayoutLaws`.
-- DeploymentRepository, StatefulSetRepository, DaemonSetRepository, ServiceRepository,
--   EndpointsRepository, NamespaceRepository, AuthRepositories: these repositories as layouts, a
--   function for each method. RepositoryLaws: the layouts obey `LayoutLaws`.
-- Controllers: src/server/controller.rs, one pass of each controller over the repositories:
--   `reconcile_deployments`, `reconcile_statefulsets`, `reconcile_daemonsets`, `reconcile_pods` and
--   `reconcile_services`, and what they call.
-- ChangeFeed: src/server/bus.rs, src/db/change_log.rs and the listener of src/server/mod.rs. A
--   `ChangeLog` is the table with the notifications that were sent; `replicate` writes a change,
--   and `listen` is what the listener of another server makes of a notification.
-- Printers: src/server/printers.rs and the ages of src/server/table.rs: the columns and the row
--   function of each kind. A map of a printed object has each key once.
-- Anyhow: `anyhow::Result`.
-- Runtime: src/node/runtime/mod.rs. A `Runtime` is an engine as a record of operations on a host
--   that all engines share; `Engines` routes a call by a class, by the scheme of an id or by asking
--   each engine. Runtime.Mock is the engine of src/node/runtime/mock.rs.
-- Agent: src/node/agent.rs. `AgentState` is the agent's memory; an `Agent` has besides it the host
--   of the engines and the requests that it sent to the server. `Outside` is what it does not
--   decide: the engines, the answers of the server, and how containers change between two looks.
--   Agent.Statuses has the statuses, Agent.Pods `reconcile_pod`, Agent.Sync `sync_pods` and
--   `sweep_orphans`, Agent.Node the registration and the heartbeats.
-- Api: src/server/api.rs, a function for each handler, over the repositories. Api.Delivery has the
--   routes of src/server/routes.rs that an agent uses and joins the agent to the server.
-- Cidr: how an agent and a server read a range of addresses.
-- Samples: data of the tests.
--
-- Every loop is a recursion on a list or on a count. Fuel is taken only by the printers of decimal
-- numbers in Scheduler.Quantity.Printing and Base.Decimal; it is one more than the number and so
-- enough.
-- Not modelled: `ControllerManager::run` (the timer and the lease before each pass), the
--   connection loop of the listener, the timers of the agent, discovery documents, web sockets and
--   the rendering of lists: pure input and output. The engines of Docker, libcontainer and
--   wasmtime, image downloads and network plumbing call other programs.
mod Base
pub mod Models
pub mod Ipam
pub mod Lease
pub mod Scheduler
pub mod Store
pub mod PodRepository
pub mod NodeRepository
pub mod EventRepository
pub mod DeploymentRepository
pub mod StatefulSetRepository
pub mod DaemonSetRepository
pub mod ServiceRepository
pub mod EndpointsRepository
pub mod NamespaceRepository
pub mod AuthRepositories
pub mod RepositoryLaws
pub mod Controllers
pub mod ChangeFeed
pub mod Printers
pub mod Anyhow
pub mod Runtime
pub mod Agent
pub mod Cidr
pub mod Api
pub mod Samples
