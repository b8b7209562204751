-- ===== src/Lib.antt =====
-- A model of yaralpho, a service that runs batches of coding tasks one item after the other with
-- coding agents, and the theorems about it.
--
-- The program: internal/storage declares the documents (repositories, batches of items, agents, task
-- runs, events) and the persistence contract, which internal/storage/mongo implements. The scheduler
-- of internal/scheduler ticks: it reads the batches and the agents, claims the first pending item of
-- the first eligible batch for the first idle agent, hands it to the worker, and writes what came of
-- it. The worker of internal/consumer reads the task from the tracker (internal/tracker), has an agent
-- execute it and another run verify it, stores and publishes the events, and reports through the
-- notifier (internal/notify). The HTTP handlers of internal/app create, pause, resume and restart
-- batches over the same contract, drain the scheduler, and list. The bus of internal/bus carries the
-- events of a run to its live subscribers, and a handler streams them over a websocket.
-- internal/config reads the settings.
--
-- The files:
--   Base: shared names, lists, errors, integers (Base/Int: Go's int, unbounded), texts (Base/Text:
--     strings.TrimSpace, strings.ToLower and strings.EqualFold on what is compared with ASCII words,
--     strings.Join, strings.Contains, strconv).
--   Storage/Models, Storage/Interface: internal/storage/models.go, interfaces.go. A world `W` stands
--     for what an implementation keeps; an operation takes it and returns it. Storage/Contract:
--     what the batch handlers rely on of it. Storage/Progress:
--     updateProgressCounts and the fold of GetBatchProgress, internal/storage/mongo/progress.go.
--   Mongo/Driver, Documents, Client, Runs: internal/storage/mongo. `client` is its Client as the
--     store's interface, over a parameter for the driver's collections; Mongo/Laws says what it keeps,
--     Mongo/Contract that it is the store which the handlers rely on.
--   Scheduler/State, Select, Settle, Tick: internal/scheduler/scheduler.go. `tick` is Tick; each of
--     its parts runs from one call that can fail to the next. The store and the worker are
--     parameters. Selection says what is chosen; Invariant, Claiming, Attempts, Liveness what becomes of a
--     batch; Steps, Calls, Protocol, Writes, Runs which calls a tick makes and what they write, read
--     off a log (`logged`); Effects the count of active runs; Pause what becomes of a pause meanwhile.
--   Worker/Env, Messages, Following, Session, Tasks, Reports, Attempts, Process: internal/consumer.
--     `execute_task` is executeTask with its event loop in Following, `execute_and_verify` is
--     executeAndVerify, `attempt_loop` the loop of handleSingleTask, `process` is Process. What they
--     call is a record of operations (`Env`). Outcomes, Retries, Termination, Pending: the theorems on
--     results; Writes, Safety, Tending, Keeping, Serving: those on writes, from a run to a work item.
--   Notify/Events, Texts, Slack: internal/notify. Tracker/Interface, Beads: internal/tracker, with
--     theorems in Tracker/Checks and Leftovers.
--   App/Http: internal/app/errors.go and what handlers share. App/Batches: addBatchHandler,
--     pauseBatchHandler, resumeBatchHandler, restartBatchHandler, with the theorems in
--     App/Batches/Transitions, Moves, Accepted, Restart,
--     Created. App/Agents, App/Repositories, App/Reads: the
--     other handlers, with theorems in App/Guards. App/Drain: restartHandler, WaitForIdle and
--     schedulerOptionsFromConfig, with theorems in App/Draining. App/Loop: runScheduler and
--     requestShutdown of internal/app/app.go, with theorems in App/Looping.
--   Live/Stream, Handler: internal/app/run_events_live_handler.go. `run_events_live` is
--     runEventsLiveHandler, `backfill` and `live` its two loops; Live/Order has the theorems.
--   Bus/State, Subscribe, Publish: internal/bus/bus.go, memory_bus.go, with theorems in Bus/Fits, Delivery
--     (one subscriber), Fanout (all of a session), Waiting, Resuming, Joining, Admission, Bounds, History (every
--     reachable state).
--   Settings/Load: internal/config/config.go, with theorems in Settings/Override, Resolve,
--     Required.
--   Scenarios (of each part) and App/Memory: concrete worlds on which the theorems are applied.
--
-- Conventions: an error is a value; a handler is a function of its decoded request; time.Now, the
-- decoded body and the query are arguments; a status that is no declared constant is `other`. Loops
-- are recursions on lists, and what a select receives is a list of arrivals. The attempts at a task
-- are counted down on fuel; as much fuel as attempts are configured is enough (`process_ends`). The
-- digits of a number are printed with as much fuel as the number and one, more than it has digits. The
-- critical sections of the bus and its selects are single steps: a publication that has to wait stops
-- with what is left of it, and goes on from there; what other goroutines do between the selects of
-- handleDropOldest is an argument. So is what goes on beside a restart request.
--
-- Not modelled: the agents' clients (processes and network protocols of third parties) beyond their
-- contract, the connection and the indexes of the database, the assembly of the parts, routes,
-- middleware and the user interface, log lines, the clock of the idle timer, and the deadlines of
-- calls, which appear as errors of the calls. What a theorem relies on of a parameter is a law that
-- its section or its binders name (IsBatchStore, IsBatchStorage, IsCreator, IsDatabase, IsDisk,
-- LeavesStatus, Keeps, Hosts). What others do to the bus between two subscribers of one publication, and
-- to the state between SetDraining and the count of a request that does not wait, is left out.
pub mod Base
pub mod Storage
pub mod Scheduler
pub mod Settings
pub mod Bus
pub mod App
pub mod Notify
pub mod Tracker
pub mod Worker
pub mod Live
pub mod Mongo
