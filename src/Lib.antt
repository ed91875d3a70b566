-- ===== src/Lib.antt =====
-- telemd, a daemon that reports runtime data of its host into redis: a model of its Go code and
-- theorems about it.
--
-- The parts of the program and the files that model them:
-- - Redis (internal/redis): `Limiter` is the state machine that the redis client consults before an
--   attempt (`Allow`) and informs behind it (`ReportResult`); `Client` is the reconnecting client
--   around it; `Protocol` is about the messages on its channel.
-- - Ticker (internal/telemd/ticker.go): the goroutine of one instrument as a receiver of messages,
--   and `Pause`, `Unpause` and `Stop` as sequences of atomic actions; `Refinement` compares it with
--   an abstract ticker.
-- - Daemon (internal/telemd/daemon.go, cmd.go): `initInstruments`, `initTickers`, `handleCommand`,
--   `PauseTickers`; `Pausing` runs it under the commands of its operator and the connection events
--   of cmd/telemd/main.go, `Selection` is about the instruments that it starts with.
-- - Cfg, Main and Env (internal/telemd/cfg.go, cmd/telemd/main.go, internal/env): the
--   configuration, `LoadFromEnvironment` and `loadConfig`, with the order of the layers in
--   `Main.Precedence`; `Env.Methods` is the interface `Environment` with its two implementations.
-- - Telem (internal/telem/telem.go): the telemetry record, its time stamp and the channel;
--   Server.Traffic is the channel with the reporter at its end.
-- - Fileio, Sysparse (internal/telemd/fileio.go, sysparse.go): the readers of /proc and /sys.
-- - Instrument (internal/telemd/instrument.go): the instruments and their factory.
-- - Measure (internal/telemd/instrument.go): `MeasureAndReport`, of the host in `Measure`, of its
--   networks and disks in `Rates`, of its memory in `Memory`, of its processors in `Cpu`, of its
--   load in `Loads`, of containers in `Containers` and `Networks`, which use the readers of
--   `Cgroups`. `Dispatch` is the call of any instrument, as a ticker makes it; each `Topics` is
--   about the topics of one kind, Daemon.Names about the names of a daemon's instruments, and
--   Server.Traffic.Topics about what comes of both in redis.
-- - Server (internal/telemd/redis.go, info.go): the commands from redis and what is written to it.
--   `Reporting` is the step relation of the reporter's goroutines, with the order in which they
--   publish: `Single` where they are prompt, `Crowding` where they are not. `Traffic` follows
--   telemetry from `Put` to redis.
-- - Main.System (cmd/telemd/main.go): the goroutines of `main` with the client, the command
--   server, the reporter and the daemon in one state, the two services in `Services`; `Views` is
--   what its operator sees, `Running` compares the two, on the listener's steps in `Listening`,
--   `Stopping` is about the handler of signals, with its deletion of the node's information in
--   `Removal`, `Hazards` about events that make goroutines wait for one another, `Early` about a
--   signal before the first answer of redis. Daemon.Waiting is the step relation of the wait
--   groups of `Daemon.Run` and of the measurements, which none of them counts.
-- - Go: what the program uses of Go's standard library, on bytes. Host: the machine.
-- - Tests: runs at concrete inputs, and each theorem at data that meets its hypotheses.
--
-- How code and model correspond. A Go string is the list of its bytes, and `codes` gives those of
-- an ASCII literal. An int64 is an integer that is wrapped around after each operation. A map is
-- an association list; Go visits a map in no fixed order, and where the model visits a list the
-- theorems do not depend on its order. A result with an error is a pair of both, as in Go. A
-- result in `Option` is `none` where the code panics, ends the program by `log.Fatal` or blocks
-- for good, as the definition's comment says; so `time.NewTicker` is none for a period that is not
-- positive, which the configuration allows. A send on an unbuffered channel is a message in the
-- output of the operation, or an action that needs a receiver. Log lines are left out.
--
-- Parameters. `Host` answers each question to the operating system at a `Moment` of its own, so
-- that two reads of one file may differ. `Floats` are the float64 values with the operations that
-- the program uses, `time.ParseDuration` is an argument, and so are what the ini library reads
-- and its `SetValue`.
--
-- Bounds and fuel. `Go.Decimal.digits` takes the number itself as fuel, which is at least its
-- count of digits. The theorems about the limiter bound the number of attempts below 2^63, where
-- its counter would wrap around; those about time stamps say between which years they hold. A
-- command that the redis library repeats while the connection fails is a list of attempts, or a
-- count of those that fail before the last, which the client's `MaxRetries` of 2^31 - 1 bounds.
--
-- A measurement's puts are its output, taken to be received but in Server.Traffic and
-- Daemon.Waiting, which are about the telemetry channel. Puts of several goroutines have no order of
-- their own, and are listed for each goroutine or in one order.
--
-- Interleavings. `Main.System` handles one event to its end before the next, so that a goroutine
-- that it starts has come to the place where it waits; a call that would wait for ever is `none`.
-- A loop of the reporter takes the value of `Stop` at an event of its own, whenever that is, since
-- it may be in a publication when the value is sent.
-- Actions that overlap are modelled where the program's outcome depends on it: `Pause` with
-- `Unpause` in Ticker, a transaction of the server with the listener in Main.System, the wait groups
-- in Daemon.Waiting, the reporter's `Run` and `Stop` in Server.Reporting, the instruments' puts with
-- the reporter's turns in Server.Traffic, and the order of the containers in
-- Measure.Networks.Kubernetes.
--
-- Not modelled: the redis library, what Go does when two goroutines meet at an unguarded map or
-- flag, and the printing of records.
pub mod Base
pub mod Go
pub mod Host
pub mod Telem
pub mod Env
pub mod Fileio
pub mod Cfg
pub mod Sysparse
pub mod Redis
pub mod Ticker
pub mod Instrument
pub mod Measure
pub mod Daemon
pub mod Server
pub mod Main
pub mod Tests
