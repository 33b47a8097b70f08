-- ===== src/Lib.antt =====
-- The Pulumi Kubernetes operator: a model of its reconciler, and theorems about it.
--
-- The operator keeps one actor for each Stack resource. Watchers send triggers through the
-- dispatcher (src/operator/actors/dispatcher.rs) to the mailbox of the actor
-- (src/operator/actors/actor.rs). For each message the actor reads the Stack and runs the
-- pipeline (src/operator/reconcile/pipeline.rs), which looks at the finalizers, the cloud
-- project, the outstanding Update, the source, the prerequisites and the workspace, and answers
-- with an action or an error. The actor carries out the action (handle_action) or the recovery
-- from the error (handle_error): it writes the status, records events, and sends itself delayed
-- messages. Updates are carried out by tasks that the watcher of Updates starts
-- (src/operator/controllers/mod.rs), each of which calls the agent of a workspace over a
-- connection of the pool (src/operator/connection.rs), writes the status of the Update, and
-- tells the actor.
--
-- Which file models what:
--   Base: numbers, Boolean tests, lists, texts as lists of bytes, machine integers with
--     saturation and wrap-around, durations in nanoseconds, results
--   Api: src/api: Program and the spec of Stack, the fields of Update and Workspace that the
--     operator reads or writes, JSON values, conditions, owner references; src/core/finalizer.rs
--   Errors, Core: src/errors.rs, src/core/{time,lock,recovery}.rs: errors, elapsed time and
--     durations, the retry loop around a call, the recovery action of each error
--   Operator: src/operator/{lock,finalizers,status,events,metrics,connection}.rs and
--     actors/messages.rs; Notifications is what events.rs publishes, and Notifications/Delivery
--     what comes of it; Metrics is metrics.rs, Health is health.rs, Start is mod.rs with
--     shutdown.rs and run_all of controllers/mod.rs. Operator/Effects and Operator/Fallible are
--     the monads of the model
--   Reconcile: src/operator/reconcile: Sync (sync.rs), Prerequisites, Source, Project, and the
--     pipeline in Action, Workspace, CreateUpdate (create_update), Destroy (handle_destroy) and
--     Pipeline (run_pipeline); CheckUpdate is check_update and truncate_message of
--     controllers/update.rs
--   Actors: actor.rs: State, Mailbox (the heap), Run (run), HandleReconcile, HandleAction with
--     its branches in Updates, Destroys and Projects, HandleError, Requeue (schedule_requeue,
--     lock recovery), Requests; Dispatcher is dispatcher.rs
--   Controllers: src/operator/controllers: StreamUpdate (stream_update of update.rs, whose
--     messages are those of src/proto/agent.proto in Protocol) and Secret (build_output_secret),
--     ExecuteUpdate (execute_update of mod.rs), UpdateWatcher (run_update_watcher), FileServer,
--     Artifact and Programs (program.rs and run_program_watcher), Workspaces with its Manifests
--     (workspace.rs), Watchers (the other watchers of mod.rs)
--   Webhook, Agent: src/operator/webhook/mod.rs; src/agent: Redact, Auth, Init (init.rs), and
--     of server.rs Command (the command lines), Process (run_pulumi_streaming), Config
--     (set_all_config) Server (the handlers), WhoAmI and Backend (run_server up to the server)
--   Tests: a concrete cluster, and the theorems at concrete inputs
--
-- State and effects. A step of the reconciler takes a history, the list of its effects so far
-- (requests to the API server, events, metrics, delayed messages) and a count of its reads, and
-- gives a value and the longer history. What the outside answers, Kubernetes, the informers'
-- caches, the agents, the cloud provider and the clocks, is a record of functions of the history
-- (Env), so that no two answers need agree; theorems hold for every such record. chrono's parser
-- of timestamps is a function of it too. A step that can fail gives a Result; a panic is a fault
-- of its own, as the release profile aborts the process.
--
-- Fuel and bounds. The loop over the heap takes one unit of fuel for each message, and gets as
-- many as the batch has messages, which is enough as each turn takes one out. The retry loop
-- counts its attempts. Saturating arithmetic of 64 bits and the wrap-around of 32-bit counters
-- are written out.
--
-- Tasks. The watcher of Updates and the tasks that it starts are a step relation: an Update is
-- observed, or a task that runs ends. So is the life of the operator's process, whose steps are
-- what its two select! wait for and the signals, and so are the calls of the connection pool
-- that no other call interrupts. The agent is a record of what it answers to each request, and a
-- stream is the list of its messages; a wait that is cut off by its timeout ends at a moment,
-- and with effects, that the model leaves open.
--
-- Not modelled. The HTTP servers' loops, the construction of the Manager and the command line
-- (src/main.rs, src/operator/manager.rs), and what the subprocesses of the agent do. The
-- channels of tokio, the generated gRPC client and server, git, HMAC, the HTTP client, and the
-- libraries for YAML, JSON and archives are parameters. The reconciler's model applies the
-- manifests of a workspace without their content. Status patches are records of the fields they
-- set; how the API server merges them is not modelled: a theorem about a status that was written
-- speaks of an Update that has what the patch sets. Logging is left out.
pub mod Base
pub mod Api
pub mod Errors
pub mod Core
pub mod Operator
pub mod Reconcile
pub mod Actors
pub mod Controllers
pub mod Webhook
pub mod Agent
pub mod Tests
