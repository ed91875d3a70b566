-- ===== src/Tests/Systems.antt =====
-- The running program at concrete events.
use telemd.Base.{
  suc, ◌≡◌, refl, true, false, none, some, List, [], ◌∷◌, codes, ◌>>=◌, arith, text_dec,
}
use telemd.Base.Int.{pos}
use telemd.Daemon.Waiting.Late.{closed_too_early}
use telemd.Daemon.Waiting.{
  Waiting, Reach, adds_first, any_order, here, next, spawn, add, done, wait_returns, tick, measured,
  commands_return, close, closed-finished,
}
use telemd.Daemon.Pausing.{on_air}
use telemd.Ticker.{new_telemetry_ticker}
use telemd.Server.{published, effect_of}
use telemd.Main.System.{
  set_up, System, Event, attempted, payload, no_message, answered, obeyed, handle, handle_all,
  shut_down, obey, start_reporter, stop_reporter,
}
use telemd.Main.System.Views.{View, IsView, system_of, view_run, begun}
use telemd.Main.System.Running.{handle_all-view_run}
use telemd.Main.System.Stopping.{stopped_system, shut_down-handle_all}
use telemd.Main.System.Removal.{after_removal, removals}
use telemd.Main.System.Early.{left_behind, early_signal}
use telemd.Main.System.Hazards.{closed_subscription, info_over_failure, unwritten_after_failure}
use telemd.Tests.Daemons.{two_tickers}

-- A first connection, a command, a failure, a loop of the reporter that stops, a recovery, a
-- message that was published, and another command.
abbrev day : List Event
day =
    attempted true true
    ∷ payload (codes "pause") (true ∷ [])
    ∷ attempted false true
    ∷ obeyed
    ∷ attempted true true
    ∷ answered published
    ∷ payload (codes "info") (true ∷ [])
    ∷ []

handle_all-view_run_example :
    (set_up (pos 5) two_tickers >>= handle_all day)
    ≡ some (system_of (pos 5) two_tickers (view_run day begun))
unfolding new_telemetry_ticker
handle_all-view_run_example =
    handle_all-view_run (pos 5) two_tickers day refl
      (refl, (refl, (refl, (tt, (refl, (tt, (refl, tt)))))))

day_view :
    ((view_run day begun).linked ≡ true)
    × ((view_run day begun).mode.held ≡ true)
    × ((view_run day begun).infos ≡ 2)
    × ((view_run day begun).reporter.loops ≡ 1)
    × ((view_run day begun).reporter.buffered ≡ 0)
unfolding effect_of text_dec start_reporter stop_reporter obey
day_view = (refl, refl, refl, refl, refl)

-- One attempt of the deletion fails, and the next one succeeds.
abbrev first_answer : List Event
first_answer = attempted true true ∷ []

shut_down-handle_all_example :
    (set_up (pos 5) two_tickers >>= λ s. handle_all first_answer s >>= shut_down 1 true)
    ≡ some (
        stopped_system
          (pos 5)
          two_tickers
          (after_removal 0 1 true (view_run first_answer begun))
          (removals 0 true))
unfolding start_reporter stop_reporter new_telemetry_ticker
shut_down-handle_all_example =
    shut_down-handle_all (pos 5) two_tickers first_answer 0 1 true refl refl (refl, tt)
      (omega arith) refl (omega arith)

early_signal_example :
    ((set_up (pos 5) two_tickers >>= λ s. handle_all [] s >>= shut_down 0 true)
      ≡ some (left_behind (pos 5) two_tickers begun))
    × (obey (left_behind (pos 5) two_tickers begun).reporter
        ≡ record { loops = 0; running = false; buffered = 0 })
unfolding new_telemetry_ticker
early_signal_example = early_signal (pos 5) two_tickers [] refl refl tt refl (omega arith)

-- The information written and deleted, the server's loop left.
early_counts :
    ((left_behind (pos 5) two_tickers begun).infos ≡ 1)
    × ((left_behind (pos 5) two_tickers begun).removed ≡ 1)
    × ((left_behind (pos 5) two_tickers begun).server.loops ≡ 1)
early_counts = (refl, refl, refl)

abbrev up : View
up = record {
  failures = pos 0;
  linked = true;
  mode = on_air;
  infos = 1;
  reporter = record { loops = 1; running = true; buffered = 0 };
}

up-IsView : IsView up
up-IsView = record { bounded = omega arith; sound = λ _. refl; live = λ e. cc }

closed_subscription_example :
    (handle_all (no_message ∷ attempted false true ∷ []) (system_of (pos 5) two_tickers up) ≡ none)
    × ((handle no_message (system_of (pos 5) two_tickers up) >>= shut_down 0 true) ≡ none)
unfolding new_telemetry_ticker
closed_subscription_example =
    closed_subscription (pos 5) two_tickers refl up true 0 true up-IsView refl

info_over_failure_example :
    handle (payload (codes "info") (false ∷ false ∷ true ∷ [])) (system_of (pos 5) two_tickers up)
    ≡ none
unfolding new_telemetry_ticker
info_over_failure_example =
    info_over_failure (pos 5) two_tickers refl up 1 up-IsView refl (omega arith)

unwritten_after_failure_example :
    (s : System) × ((set_up (pos 5) two_tickers
        >>= handle_all (attempted false true ∷ attempted true true ∷ []))
      ≡ some s)
    × (s.infos ≡ 0)
unfolding new_telemetry_ticker
unwritten_after_failure_example =
    unwritten_after_failure (pos 5) two_tickers (attempted true true ∷ []) refl refl (refl, tt)
      (tt, tt) (omega arith)

-- One ticker, counted before `Wait`, stopped, and then the end of `Run`.
abbrev over : Waiting
over = record {
  tickers = record { unspawned = 0; pending = 0; active = 0; finished = 1 };
  counter = 0;
  commands_running = false;
  tickers_awaited = true;
  closed = true;
  measuring = 0;
  panicked = false;
}

over-Reach : Reach adds_first 1 over
over-Reach =
    let measured_once =
      next (next (next (next here refl (spawn refl)) refl (add refl)) refl (tick refl)) refl
        (measured refl) in
    let stopped = next (next measured_once refl (done refl refl)) refl commands_return in
    next (next stopped refl (wait_returns refl refl refl)) refl (close refl refl)

closed-finished_example : (over.commands_running ≡ false) × (over.tickers.finished ≡ 1)
closed-finished_example = closed-finished over-Reach refl

closed_too_early_example :
    ((s : Waiting) × Reach any_order (suc 1) s
      × (s.closed ≡ true)
      × (s.tickers.active ≡ suc 1)
      × (s.tickers.finished ≡ 0))
    × ((s : Waiting) × Reach adds_first (suc 1) s
        × (s.commands_running ≡ false)
        × (s.tickers.finished ≡ suc 1)
        × (s.measuring ≡ suc 2)
        × (s.panicked ≡ true))
closed_too_early_example = closed_too_early 1 2
