-- ===== src/Lib.antt =====
-- The controller of Constellation: its state store, its scheduler, its splitter and its handlers.
--
-- The controller keeps a cluster's nodes, tasks and chunks in an SQL database (controller/state),
-- and its scheduler (controller/scheduler) runs two loops on it: a scheduling cycle, which places
-- queued tasks and chunks on online workers, and a heartbeat monitor, which marks silent workers
-- offline and moves their tasks. The handlers of controller/api write requests and reports to the
-- same store; agents pull what is scheduled for them. Both broadcast events to a websocket hub.
--
-- State models controller/state/store.go.
--   State/Model: the structs. A `time.Time` is a number of nanoseconds, 0 the zero time; what the
--     columns of labels and environment variables hold is kept as lists.
--   State/Engine: the tables of `migrate` as lists of rows in insertion order, the CHECK and key
--     constraints, and `Engine`, what one call may meet of the database: whether foreign keys are
--     enforced, and which statements fail. dqlite, the database itself, is not in the repository.
--     A method that returns an error is a function into `Result`, and changes nothing when it fails.
--   State/Tasks, State/Chunks, State/Nodes, State/Clusters, State/Pool: the methods of Store under
--     their names (CreateTask is create_task). The time of a call and fresh UUIDs are arguments.
--     A query with ORDER BY is a stable insertion sort of the selected rows. INSERT and Scan name the
--     columns by position; that each position holds the column of its field is taken from reading them.
--   State/Valid: the calls that write, as data, and well-formed databases.
-- Scheduler models controller/scheduler.
--   Scheduler/Scoring: scoring.go. Scheduler/Placement: placement.go, and findBestNode,
--     satisfiesConstraints and findGangNodes of scheduler.go.
--   Scheduler/Events: the store together with the events broadcast to the hub, in order.
--   Scheduler/Cycle: scheduleCycle. Each function is a part of its body, so that a `continue` is
--     an early return; what SplitTask answers is an argument.
--   Scheduler/Heartbeat: checkHeartbeats and rescheduleNodeTasks.
--   Scheduler/Loop: what a `for … range` loop over rows with unique ids does to each row.
--   Scheduler/Queue: the priority queue of queue.go, with the functions of Go's container/heap that it
--     calls. Their loops have fuel: `up` at most as many rounds as the place it starts from and one,
--     `down` at most as many as there are items and one. The scheduler does not use
--     this queue.
-- Splitter models controller/splitter/splitter.go over a file system, which is a parameter: what its
--   files hold, which files cannot be created, and what a Write leaves in one. What a split writes is
--   returned beside its chunks; that a Write of splitByLines fails is left out. System takes any
--   function for SplitTask, this one among them.
-- Api models the handlers of controller/api.
--   Api/Handler: a handler reads and writes the store, broadcasts, and ends with a reply. A reply
--     has its status and its value; a decoded body is an argument, none where decoding fails.
--   Api/Tasks, Api/Agents, Api/Users: tasks.go, as users call it, as agents call it, and its users
--     and logins. Api/Nodes, Api/Cluster: cluster.go, grpc_server.go and analytics.go.
--   Api/Auth: middleware/auth.go and the passwords of helpers.go, over a JWT library.
--   Api/Hub: the websocket hub of websocket.go. The goroutines of the hub and of its connections are
--     steps on the channels that they share, in any order, each where its channel operation can go on.
--   Api/Keeps, Api/Closed: what a property of the store needs to survive every handler.
-- System puts them together: an event is a request or a tick of one of the scheduler's loops, and a
--   history is any sequence of events, each run to its end before the next one. The program also runs
--   them at the same time, with their calls of the store between each other's: such a run is
--   modelled only as a sequence of calls of the store, by `run` of State/Valid. System/Lifecycle has
--   the moves in the life of a task, and System/Lifecycle/Orders what its submission says of it.
--   System/Router: the requests of router.go, a handler each, which of them RequireAuth guards, and the
--     Heartbeat of the gRPC server beside them, which needs no token.
-- Cli models the command line client, cli/cmd: a command is a request, or none (call_of), and
--   do_request reads what comes back. Cli/Bodies: what the controller reads from the objects that the
--   client sends, as encoding/json does. Cli/Talking: the table of routes, and how the router finds one
--   for a method and a path. Cli/Session: the client and the controller in one run; the URL library and
--   what is served where no route is found are parameters. An object is a function from its keys.
-- Prelude has the lists, rows, sorts and numbers that these share.
--
-- Numbers: Go's int and int64 are the integers ℤ, without wrap-around, but for the number of chunks of
-- splitBySize, where an int64 may overflow; a float64 is an abstract type with the operations that the
-- code uses (Prelude/Floats), and a theorem that needs a law of these says so. Loops run over lists or numbers, so no fuel is used, except in the heap of
-- the priority queue and to print a number, which has fewer digits than its fuel, the number and one.
--
-- Not modelled: log lines and the texts of errors, the locks of the store and of the scheduler (a
-- call is one step), the scheduler's goroutines and tickers, GenerateReduceTask (nothing calls it),
-- log files and their stream, the made-up utilization of HandleAnalytics, the
-- pings and deadlines of websocket connections, discovery, the tables and boxes that the command line
-- client prints and its token file, the generated protocol code, the agent and the dashboard.
mod Prelude
pub mod State
pub mod Scheduler
pub mod Splitter
pub mod Api
pub mod System
pub mod Cli
mod Examples
