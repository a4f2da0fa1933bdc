-- ===== src/Lib.antt =====
-- govisor: a Manager of services, with their dependencies, conflicts and restarts.
--
-- A Manager keeps a set of services. A service depends on names, which other services of the manager
-- satisfy, and conflicts with names. A service that is enabled runs while its dependencies are up; when
-- one stops or fails, those that depend on it are stopped, and are started again behind it.
--
--   * Name: service.go, `serviceMatches`.
--   * World: errors.go, and the state of `Service` and `Manager`. A service is a reference (`Ref`),
--     and each group of its fields is a function of references: `props`, `links`, `flags`, `rate`,
--     `info`. `Env` is what the code does not decide: the clock, the answers of the providers and the
--     order in which Go ranges over a map, each by the number of readings so far; and the longest
--     slice that `make` allocates.
--   * Log: log.go, `Write`, `Clear` and `GetRecords`; `Log.Lines` splits a text into lines.
--   * MultiLog: multilog.go, `AddLogger`, `DelLogger` and `Write`.
--   * Service: service.go. `Service.Runnable` is `canRun`, `Service.Limit` is `tooQuickly`,
--     `Service.Run` is `startRecurse`, `stopRecurse`, `checkService` and `selfHeal`, `Service.Graph`
--     is `setManager` and `delManager`, `Service.Api` is what clients call and
--     `Service.Property` is `SetProperty` and `GetProperty`.
--   * Manager: manager.go. Each call is one step, since the lock of the Manager is held throughout;
--     only `Check` runs without it.
--   * Machine: histories of calls from `NewManager` and `NewService`.
--   * Invariant: what is to hold between two calls, and the calls against it. `Invariant.Supply` is
--     what it says of dependencies, `Invariant.Graph` is the graph, `Invariant.Stop` and
--     `Invariant.Start` are the two recursions, `Invariant.Tracked`, `Invariant.Outcomes`,
--     `Invariant.Serials`, `Invariant.Handed`, `Invariant.Answered` and `Invariant.Joined` are about
--     serial numbers, `Invariant.Calls`, `Invariant.Manager`, `Invariant.Property` and
--     `Invariant.Shutdown` are the calls.
--   * Watch: manager.go `watchSerial` and log.go `Watch`, as steps of one goroutine.
--   * Process: process.go, with the answers of the operating system as an argument (`Os`). The logger
--     is the one that NewService sets, and the lines that are printed are notes. `Process.Lifecycle`
--     has the order in which the calls and the ends of the process can come, `Process.Failure` is
--     about failures, and `Process.Settings` is `SetProperty` and `Property`.
--   * Number: what the code uses of strconv.
--   * Server: server/server.go and rest/common.go. `Server.Http` is requests, responses, `checkPoll`
--     and `condCheckGet`, `Server.Get` and `Server.Detail` are the handlers of GET, `Server.Post` is
--     those of POST and the table of routes. A handler is given the Manager in the state in which the
--     wait of `checkPoll` ends; `getService`, which takes the lock for each reading, is given the
--     states at its readings. `Server.Caching` and `Server.Answers` are about them.
--   * Client: rest/client.go. `Client.Http` is `poll` and `post` but for the transport, and
--     `Client.Cache` is the calls, each in two parts, since the lock is let go while a request is on
--     its way. `Client.Session` and `Client.Service` put the client and the server together.
--   * Util: govisor/util/util.go.
--   * Daemon: govisord/main.go, the passwords (`Daemon.Auth`) and the start of the services
--     (`Daemon.Start`, and `Daemon.Enabled` about it).
--   * Terminal: govisor/main.go, the commands of the terminal client.
--   * Ui: govisor/ui/, the panels of the terminal client. `Ui.Events` is the keys and the calls of the
--     panels, `Ui.Bar` is panel.go, statusbar.go and keybar.go, and `Ui.Keys` is the markup of the key
--     bar. `Ui.Main` is mpanel.go, with its `update` in `Ui.Main.Load`; `Ui.Main.Fits`, `Ui.Main.Loads`,
--     `Ui.Main.Runs` and `Ui.Main.Counts` are about it. `Ui.Auth`, `Ui.Info`, `Ui.LogView` and `Ui.Help`
--     are apanel.go, ipanel.go, lpanel.go and hpanel.go, and `Ui.App` and `Ui.Loop` are app.go, which
--     puts them together: a function that is posted is a value in a queue, and a round of `refresh` or
--     of `refreshLog` is an event. `Ui.Logs`, `Ui.Shown` and `Ui.Reach` are about the logs, and
--     `Ui.Offered` is about the keys of all panels. An index that Go finds out of range is `none`.
--
-- A recursion has as bound one more than the number of services: `stopRecurse` marks a service before
-- it goes on to its children, and `startRecurse` goes on only from one that has begun to run. A serial
-- number is an int64, kept modulo 2 ^ 64; the count of starts, an int, is taken to be unbounded, and
-- times are nanoseconds, with a period of either sign.
--
-- The loop of `getService` has as fuel the rounds that it may take, and a number is printed with itself
-- as the count of its digits.
--
-- Parameters stand for what is not in the repository or only handed on: the router, JSON, the formats
-- of time and the transport (`Web`), bcrypt, files and the reader of their records (`System`), the
-- operating system (`Os`), and the padding, the bytes of a string and the times of the screen
-- (`Screen`).
--
-- Bounds of the histories: a provider that panics, as Process does on an empty command, and a nil
-- logger, on which the next line panics, end the program and are left out; `make` panics above the
-- length `longest` of `Env`. In process.go the end of a wait, `waiter.Done()`, is one step with the
-- unlock before it, and a pid is a natural number, so that it is never -1.
--
-- Not modelled: the sinks of the loggers (a log line is an event), the base directory of the Manager,
-- the goroutines that copy the output of a process, the reading of manifests, flags, signals and
-- sockets, and of the panels of the terminal client the layout, the drawing and what the widgets of the
-- library do with the keys that a panel hands on (a cursor move comes as a call). A logger or a callback
-- that is set as a property is a number.
pub mod Common
pub mod Name
pub mod World
pub mod Log
pub mod MultiLog
pub mod Service
pub mod Manager
pub mod Invariant
pub mod Machine
pub mod Number
pub mod Process
pub mod Server
pub mod Client
pub mod Watch
pub mod Util
pub mod Daemon
pub mod Terminal
pub mod Ui
