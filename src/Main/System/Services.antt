-- ===== src/Main/System/Services.antt =====
-- internal/telemd/redis.go: the goroutines, the flag and the stop channel of the command server and of
-- the reporter, as cmd/telemd/main.go starts and stops them.
use telemd.Base.{ℕ, zero, suc, ◌+◌, Bool, true, false, Option, none, some, if◌then◌else◌, leb}

-- A value with a goroutine `Run`: how many of them are in their loop, the flag `running`, and
-- the values in the stop channel.
pub record Service : Type 0 where
  pub loops : ℕ
  pub running : Bool
  pub buffered : ℕ

-- `NewRedisCommandServer` and `NewRedisReporter`.
abbrev pub new_service : Service
new_service = record { loops = 0; running = false; buffered = 0 }

-- `go commandServer.Run()`
unfoldable pub start_server : Service → Service
start_server s = record s { loops = s.loops + 1; running = true }

-- `commandServer.Stop()` over a channel without a buffer: the flag is reset by the loop that takes
-- the value, and where there is no loop the send blocks.
stop_loop : ℕ → Service → Option Service
stop_loop zero s = none
stop_loop (suc n) s = some (record s { loops = n; running = false })

unfoldable pub stop_server : Service → Option Service
unfolding stop_loop
stop_server s = if s.running then stop_loop s.loops s else some s

-- `go telemetryReporter.Run()`
unfoldable pub start_reporter : Service → Service
start_reporter s = record s { loops = s.loops + 1; running = true }

-- `go telemetryReporter.Stop()`: the value goes to the buffer of the stop channel, or its goroutine
-- waits until there is room for it. No loop has taken it yet: the one whose publication failed is
-- not in its `select`.
unfoldable pub stop_reporter : Service → Service
stop_reporter s = if s.running then record s { buffered = s.buffered + 1 } else s

-- `telemetryReporter.Stop()` in the handler of signals, which waits itself while the buffer is full.
unfoldable pub stop_reporter_here : Service → Option Service
unfolding stop_reporter
stop_reporter_here s =
    if s.running then (if leb 10 s.buffered then none else some (stop_reporter s)) else some s

-- A loop of the reporter comes to its `select` and takes a value from the stop channel, if there
-- are both.
obey_with : ℕ → ℕ → Service → Service
obey_with (suc n) (suc k) s = record s { loops = n; running = false; buffered = k }
obey_with _ _ s = s

unfoldable pub obey : Service → Service
unfolding obey_with
obey s = obey_with s.loops s.buffered s

-- One loop returns with the flag as it is, or reset.
unfoldable pub leave : ℕ → Service → Service
leave zero s = s
leave (suc n) s = record s { loops = n }

unfoldable pub left_with_reset : ℕ → Service → Service
left_with_reset zero s = s
left_with_reset (suc n) s = record s { loops = n; running = false }
