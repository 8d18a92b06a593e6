-- ===== src/Lib.antt =====
-- Skipper, a scheduler for a cluster of machines with accelerators: agents on the nodes register with a
-- server, report what they have and run jobs; the server stores nodes and jobs, plans which job runs where,
-- and tells people of what happens. This library models the server -- its store, its scheduler, its
-- notifications, its two services, its console and the way it reaches nodes over SSH --, the executor
-- and the collectors of an agent, and the command line of a user.
--
-- The parts, and the files that model them:
-- - Model: the data of internal/store/store.go and internal/event/event.go. States are data types where the
--   code has strings. Time and Platform are what the code takes from Go: instants and durations in
--   nanoseconds, floats and printed forms, these as parameters.
-- - Store: the interface `Store` (Store.Api, a record of operations) and `sqliteStore` (internal/store):
--   Store.Rows has the tables and scanJob, Store.Nodes, Store.Jobs and Store.Events the statements;
--   Store.Sqlite makes them an implementation of the interface. Store.Lifecycle has the diagram of the states
--   of a job, as a step relation.
-- - Scheduler: internal/scheduler. Scheduler.Free follows buildFree, selectFit, pickDevices and consume,
--   Scheduler.Reservation reservationTime and what it calls, Scheduler.Plan the loop of Plan,
--   Scheduler.Pass the method pass, over any store.
-- - Notify: internal/notify. Notify.Rules follows rule.go, Notify.Engine engine.go, Notify.Watched and
--   Notify.Detector detector.go with internal/metrics. The engine is over any store.
-- - Server: internal/server. Server.Agent and Server.Cluster are the handlers of the two services, with
--   Server.Messages for what they exchange and Server.State for what they share (and joblog.go),
--   Server.Convert the messages, Server.Reaper the sweep of reapLoop, Server.Diagnose diagnose.go with the
--   classification of internal/transport/diagnose.go.
--   Server.Logs follows GetJobLogs, Server.Prometheus prometheus.go, Server.Tunnels the part of server.go
--   that starts tunnels and delivers agents.
-- - Web: internal/server/webserver.go. Web.Json are its answers, Web.Sizes the texts that it reads,
--   Web.Handlers the handlers, Web.Logs jobLogsStream.
-- - Transport: internal/transport. Transport.Shell is the command line of an agent with its quoting,
--   Transport.Scp the upload, Transport.Provision one attempt of a delivery, Transport.Tunnel the loop of a
--   tunnel (ssh.go); Transport.Reader is a description of how a shell reads words, which the code does
--   not contain. Transport.Dial is dialSSH with the key of the host, Transport.Alive the probe of
--   internal/transport/diagnose.go, which Server.Recovery (run of diagnose.go) uses.
-- - Agent: internal/agent. Agent.Executor, Agent.Run and Agent.Pump follow executor.go, Agent.Register
--   the loop of register in agent.go, which is an instance of Retry, Agent.Loop the rounds of Run and pollLoop;
--   Agent.Rejoin puts a round of an agent and the handlers of the server together.
-- - Collector: internal/collector: Collector itself CollectAll and the inventory, Collector.Nvidia and
--   Collector.Ascend the reading of what the tools of the devices print.
-- - Config: internal/config. Skctl: cmd/skctl.
-- - Strings and Format: what the code uses of the packages strings, strconv and fmt.
-- The other files of a part prove what they name; the files Tests run the definitions on small inputs.
--
-- A pass of the scheduler reads the store, plans and assigns; the handlers change the store and emit
-- events into the engine, which writes the store too. So the state of the server is one record, the store and
-- the engine in it, and a handler is a function of a request, the time and that state. Calls are one at a
-- time. Where the code reads the clock, the time is an argument; the ids of store.NewID are a
-- parameter.
--
-- All loops are structural recursion, or run on fuel: `decimal` on the number itself, which falls with
-- every digit; `chunks` of a log on the number of its bytes, of which each round takes some; `scale` of a
-- size on six rounds, which 64 bits do not exceed. A loop that waits for the world (a retry, a tunnel, a
-- follower of a log) runs on the rounds that it is given.
-- Numbers are unbounded with the wrap-around of the source written out where it computes:
-- the product of a walltime and a second in 64 bits, the comparison of lengths in 32 bits, the additions
-- of freed resources in 32 and 64 bits, Time.Sub with its saturation. The memory of a job is refused from
-- 2^63 bytes on, as database/sql does.
--
-- Not modelled: the processes that an agent starts, the sampling of cores, memory and disks, the calls
-- of package ssh, listeners, threads and shutdown, the console's static files, the reading of flags, YAML
-- and JSON by their packages, the generated code; failures of the SQLite driver other than broken
-- constraints and the memory of a job (a node is taken to have less than 2^63 bytes), JSON columns,
-- failures of the file system but in the logs that are followed.
pub mod Base
pub mod Time
pub mod Platform
pub mod Model
pub mod Format
pub mod Store
pub mod Scheduler
pub mod Notify
pub mod Server
pub mod Collector
pub mod Skctl
pub mod Config
pub mod Web
pub mod Agent
pub mod Strings
pub mod Retry
pub mod Transport
pub mod Samples
