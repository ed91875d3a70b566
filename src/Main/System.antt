-- ===== src/Main/System.antt =====
-- cmd/telemd/main.go: the goroutine that listens to the state of the connection, the handler of
-- signals, and the command server and the reporter of internal/telemd/redis.go that they start and
-- stop. `none` is a panic, `log.Fatal`, or a goroutine that blocks for good while it handles the
-- event. A goroutine that is started runs to the place where it waits before the next event.
pub mod Services
pub mod Views
pub mod Listening
pub mod Running
pub mod Removal
pub mod Stopping
pub mod Hazards
pub mod Early
use telemd.Base.{
  ℕ, zero, suc, ◌+◌, ◌-◌, Bool, true, false, Option, none, some, List, [], ◌∷◌, ◌++◌, Text, ◌>>=◌,
  if◌then◌else◌, leb,
}
use telemd.Base.Int.{ℤ}
use telemd.Redis.Limiter.{ConnectionState, connected, failed, recovered, stopped, is_retrying}
use telemd.Redis.Client.{ReconnectingClient, report, new_reconnecting_client}
use telemd.Redis.Client
use telemd.Daemon.{
  Daemon, start_tickers, pause_tickers, unpause_tickers, handle_command, stop_tickers,
}
use telemd.Server.{Effect, send, update_node_info, ignore, effect_of, Answer, after_answer}
unfoldable pub use telemd.Main.System.Services.{
  start_server, stop_server, start_reporter, stop_reporter, stop_reporter_here, obey, leave,
  left_with_reset,
}
pub use telemd.Main.System.Services.{Service, new_service}

-- The state that the goroutines share; `infos` counts how often the node's hash was written, and
-- `removed` how often it was deleted.
pub record System : Type 0 where
  pub client : ReconnectingClient
  pub server : Service
  pub reporter : Service
  pub daemon : Daemon
  pub infos : ℕ
  pub removed : ℕ
  -- The listener, and the daemon's command loop, which both may have returned.
  pub listening : Bool
  pub commanding : Bool

-- `main` before its first attempt, with the tickers of `daemon.Run` begun.
pub set_up : ℤ → Daemon → Option System
set_up backoff d = do
  daemon ← start_tickers d
  some (record {
    client = new_reconnecting_client backoff;
    server = new_service;
    reporter = new_service;
    daemon = daemon;
    infos = 0;
    removed = 0;
    listening = true;
    commanding = true;
  })

-- The messages of one attempt with the client.
pub attempt : Bool → System → Option (System × List ConnectionState)
attempt success s = do
  result ← report success s.client
  some (record s { client = result.0 }, result.1)

-- `UpdateNodeInfo` in the listener: a message has no receiver, since the listener is here, and an
-- error is fatal. The attempt is the first one of the transaction.
written : Bool → System × List ConnectionState → Option System
written true (s, []) = some (record s { infos = s.infos + 1 })
written false (s, []) = none
written _ (s, _ ∷ _) = none

pub initialize_node_info : Bool → System → Option System
unfolding written attempt
initialize_node_info success s = attempt success s >>= written success

-- Both services.
abbrev pub start_services : System → System
start_services s = record s { server = start_server s.server; reporter = start_reporter s.reporter }

-- The listener's `switch`; the flag says how `UpdateNodeInfo` ends.
pub listen : Bool → ConnectionState → System → Option System
unfolding initialize_node_info
listen success connected s = initialize_node_info success (start_services s)
listen success failed s = do
  daemon ← pause_tickers s.daemon
  server ← stop_server s.server
  some (record s { daemon = daemon; server = server; reporter = stop_reporter s.reporter })
listen success recovered s = do
  daemon ← unpause_tickers s.daemon
  some (start_services (record s { daemon = daemon }))
listen success stopped s = some (record s { listening = false })

-- The messages of an attempt, one by one; a sender blocks where nobody listens any more.
pub deliver : Bool → List ConnectionState → System → Option System
deliver success [] s = some s
deliver success (m ∷ ms) s =
    if s.listening then (listen success m s >>= deliver success ms) else none

-- An attempt of some goroutine that is neither the listener nor the server.
pub attempt_and_deliver : Bool → Bool → System → Option System
unfolding attempt deliver
attempt_and_deliver result success s = attempt result s >>= λ r. deliver success r.1 r.0

-- All attempts of one transaction.
pub attempts : List Bool → System → Option (System × List ConnectionState)
unfolding attempt
attempts [] s = some (s, [])
attempts (r ∷ rs) s = do
  first ← attempt r s
  rest ← attempts rs first.0
  some (rest.0, first.1 ++ rest.1)

-- The server while one of its loops is in a transaction, and so not in its `select`.
abbrev pub occupied : System → System
occupied s = record s { server = record s.server { loops = s.server.loops - 1 } }

abbrev pub freed : System → System
freed s = record s { server = record s.server { loops = s.server.loops + 1 } }

-- A message that the listener cannot handle until the loop is back: where the transaction sends
-- another one, the loop waits for the listener and the listener for the loop.
wait_for_loop : ConnectionState → List ConnectionState → System → Option System
unfolding listen
wait_for_loop m [] s = listen true m s
wait_for_loop m (_ ∷ _) s = none

-- The messages while the server's loop is in a transaction.
pub deliver_busy : List ConnectionState → System → Option System
unfolding listen wait_for_loop
deliver_busy [] s = some s
deliver_busy (m ∷ ms) s = elim (listen true m (occupied s)) [
  | some s' ↦ deliver_busy ms (freed s')
  | none ↦ wait_for_loop m ms s
]

-- `UpdateNodeInfo` for the command `info`, which writes where the last attempt succeeds.
abbrev pub last_succeeds : List Bool → Bool
last_succeeds [] = false
last_succeeds (r ∷ []) = r
last_succeeds (r ∷ r' ∷ rs) = last_succeeds (r' ∷ rs)

pub serve_info : List Bool → System → Option System
serve_info rs s = do
  result ← attempts rs s
  s' ← deliver_busy result.1 result.0
  some (if last_succeeds rs then record s' { infos = s'.infos + 1 } else s')

-- `daemon.Send` from the server's loop: it blocks where the command loop has returned.
pub serve_effect : Effect → List Bool → System → Option System
unfolding serve_info
serve_effect (send c) rs s =
    if s.commanding
    then (handle_command c s.daemon >>= λ d. some (record s { daemon = d }))
    else none
serve_effect update_node_info rs s = serve_info rs s
serve_effect ignore rs s = some s

-- What happens to the program: an attempt to reach redis, with the result of the node's
-- information where the listener writes it; a message for the server, with the attempts of its
-- transaction; the nil that the server gets from a closed subscription; the answer to a telemetry.
pub data Event : Type 0 where
  attempted : (result success : Bool) → Event
  payload : Text → List Bool → Event
  no_message : Event
  answered : Answer → Event
  -- A loop of the reporter takes a value from its stop channel.
  obeyed : Event

after : Option Bool → System → Option System
after none s = none
after (some true) s = some s
after (some false) s = some (record s { reporter = left_with_reset s.reporter.loops s.reporter })

-- A message and an answer need a loop that waits for them; without one nothing happens.
pub handle : Event → System → Option System
unfolding attempt_and_deliver serve_effect leave left_with_reset after
handle (attempted result success) s = attempt_and_deliver result success s
handle (payload text rs) s = elim s.server.loops [
  | zero ↦ some s
  | suc n ↦ serve_effect (effect_of text) rs s
]
handle no_message s = some (record s { server = leave s.server.loops s.server })
handle (answered a) s = elim s.reporter.loops [ zero ↦ some s | suc n ↦ after (after_answer a) s ]
handle obeyed s = some (record s { reporter = obey s.reporter })

pub handle_all : List Event → System → Option System
unfolding handle
handle_all [] s = some s
handle_all (e ∷ es) s = handle e s >>= handle_all es

-- The handler of signals: `RemoveNodeInfo` is an attempt whose messages the listener takes. The redis
-- library repeats it while the connection fails, here so many times; the last attempt succeeds or
-- has an error that is not repeated, which is dropped.
pub remove_after : ℕ → Bool → System → Option System
unfolding attempt_and_deliver
remove_after zero result s = attempt_and_deliver result true s >>= λ s'.
    some (if result then record s' { removed = s'.removed + 1 } else s')
remove_after (suc n) result s = attempt_and_deliver false true s >>= remove_after n result

pub remove_node_info : ℕ → Bool → System → Option System
remove_node_info failures result s =
    if is_retrying s.client.limiter
    then some s
    else if leb failures s.client.max_retries
    then remove_after failures result s
    else remove_after s.client.max_retries false s

-- `Close` of the client sends its message to the listener.
pub close_client : System → Option System
unfolding deliver
close_client s =
    let (client, messages) = Client.close s.client in
    deliver true messages s >>= λ s'. some (record s' { client = client })

-- `daemon.Stop`: the flag for the command loop, then the tickers.
pub stop_daemon : System → Option System
stop_daemon s =
    if s.commanding
    then (stop_tickers s.daemon >>= λ d. some (record s { daemon = d; commanding = false }))
    else none

pub shut_down : ℕ → Bool → System → Option System
shut_down failures result s = do
  server ← stop_server s.server
  s₁ ← remove_node_info failures result (record s { server = server })
  s₂ ← close_client s₁
  reporter ← stop_reporter_here s₂.reporter
  stop_daemon (record s₂ { reporter = reporter })
