-- ===== src/Main/System/Listening.antt =====
-- The listener and the server's loop on a system that its operator sees.
use telemd.Base.{ℕ, zero, suc, ◌+◌, ◌≡◌, refl, ◌≢◌, Bool, true, false, some, [], ◌∷◌, Text, arith}
use telemd.Base.Int.{ℤ, pos, negsuc, add64}
use telemd.Redis.Limiter.{connected, failed, recovered}
use telemd.Ticker.Refinement.{Phase}
use telemd.Daemon.{Daemon, Command, pause_tickers, unpause_tickers, handle_command}
use telemd.Daemon.Pausing.{
  all_positive, Mode, mode_step, in_mode, handle_event, handle_event-mode_step, got,
  connection_failed, connection_recovered,
}
use telemd.Server.{Effect, send, update_node_info, ignore, effect_of, published, after_answer}
use telemd.Main.System.{
  Service, System, after, start_server, stop_server, start_reporter, stop_reporter,
  initialize_node_info, listen, attempt_and_deliver, attempts, deliver_busy, serve_info,
  serve_effect, payload, answered, handle,
}
use telemd.Main.System.Views.{
  report-messages, View, IsView, system_of, attempt_step, effect_step, view_step,
}

-- The daemon's operations in a mode.
module _ (m : Mode) (d : Daemon) (h : m.phase ≢ Phase.stopped)
    (g : all_positive d.tickers ≡ true) where
  pub pause_tickers-in_mode :
      pause_tickers (in_mode m d) ≡ some (in_mode (mode_step connection_failed m) d)
  unfolding handle_event
  pause_tickers-in_mode = handle_event-mode_step connection_failed m d h g

  unpause_tickers-in_mode :
      unpause_tickers (in_mode m d) ≡ some (in_mode (mode_step connection_recovered m) d)
  unfolding handle_event
  unpause_tickers-in_mode = handle_event-mode_step connection_recovered m d h g

  handle_command-in_mode :
      (c : Command) → handle_command c (in_mode m d) ≡ some (in_mode (mode_step (got c) m) d)
  unfolding handle_event
  handle_command-in_mode c = handle_event-mode_step (got c) m d h g

module _ (b : ℤ) (d : Daemon) (g : all_positive d.tickers ≡ true) where
  -- The listener's three operations on a system in a view.
  listen-connected :
      (mode : Mode) (infos : ℕ) (rep : Service)
      → listen true connected (
          system_of b d (record {
            failures = pos 0;
            linked = false;
            mode = mode;
            infos = infos;
            reporter = rep;
          }))
        ≡ some (
            system_of b d (record {
              failures = pos 0;
              linked = true;
              mode = mode;
              infos = infos + 1;
              reporter = start_reporter rep;
            }))
  unfolding listen initialize_node_info start_server
  listen-connected mode infos rep = rw (report-messages b true (pos 0) (omega arith)) refl

  listen-recovered :
      (mode : Mode) (infos : ℕ) (rep : Service)
      → mode.phase ≢ Phase.stopped
      → listen true recovered (
          system_of b d (record {
            failures = pos 0;
            linked = false;
            mode = mode;
            infos = infos;
            reporter = rep;
          }))
        ≡ some (
            system_of b d (record {
              failures = pos 0;
              linked = true;
              mode = mode_step connection_recovered mode;
              infos = infos;
              reporter = start_reporter rep;
            }))
  unfolding listen start_server
  listen-recovered mode infos rep h = rw (unpause_tickers-in_mode mode d h g) refl

  pub listen-failed :
      (linked success : Bool) (f : ℤ) (mode : Mode) (infos : ℕ) (rep : Service)
      → mode.phase ≢ Phase.stopped
      → listen success failed (
          system_of b d
            (record { failures = f; linked = linked; mode = mode; infos = infos; reporter = rep }))
        ≡ some (
            system_of b d (record {
              failures = f;
              linked = false;
              mode = mode_step connection_failed mode;
              infos = infos;
              reporter = stop_reporter rep;
            }))
  unfolding listen stop_server
  listen-failed true success f mode infos rep h = rw (pause_tickers-in_mode mode d h g) refl
  listen-failed false success f mode infos rep h = rw (pause_tickers-in_mode mode d h g) refl

  pub attempted_lem :
      (r : Bool) (f : ℤ) (linked : Bool) (mode : Mode) (infos : ℕ) (rep : Service)
      → let v : View = record {
        failures = f;
        linked = linked;
        mode = mode;
        infos = infos;
        reporter = rep;
      } in
        IsView v
        → attempt_and_deliver r true (system_of b d v) ≡ some (system_of b d (attempt_step r f v))
  unfolding attempt_and_deliver
  attempted_lem true (negsuc zero) true mode infos rep h = absurd (cc (h.sound refl))
  attempted_lem true (negsuc zero) false mode infos rep h =
      rw (report-messages b true (negsuc 0) h.bounded, listen-connected mode infos rep) refl
  attempted_lem true (negsuc (suc n)) linked mode infos rep h =
      rw (report-messages b true (negsuc (suc n)) h.bounded) refl
  attempted_lem true (pos zero) linked mode infos rep h =
      rw (report-messages b true (pos zero) h.bounded) refl
  attempted_lem true (pos (suc n)) true mode infos rep h = absurd (cc (h.sound refl))
  attempted_lem true (pos (suc n)) false mode infos rep h =
      rw (report-messages b true (pos (suc n)) h.bounded, listen-recovered mode infos rep h.live)
        refl
  attempted_lem false (negsuc n) linked mode infos rep h =
      rw (report-messages b false (negsuc n) h.bounded) refl
  attempted_lem false (pos zero) linked mode infos rep h =
      rw
        (
          report-messages b false (pos zero) h.bounded,
          listen-failed linked true (add64 (pos 0) (pos 1)) mode infos rep h.live,
        )
        (unfold add64 in refl)
  attempted_lem false (pos (suc n)) linked mode infos rep h =
      rw (report-messages b false (pos (suc n)) h.bounded) refl

  effect_lem :
      (e : Effect) (mode : Mode) (infos : ℕ) (rep : Service)
      → let v : View = record {
        failures = pos 0;
        linked = true;
        mode = mode;
        infos = infos;
        reporter = rep;
      } in
        mode.phase ≢ Phase.stopped
        → serve_effect e (true ∷ []) (system_of b d v) ≡ some (system_of b d (effect_step e v))
  unfolding serve_effect serve_info attempts deliver_busy
  effect_lem (send c) mode infos rep h = rw (handle_command-in_mode mode d h g c) refl
  effect_lem update_node_info mode infos rep h =
      rw (report-messages b true (pos 0) (omega arith)) refl
  effect_lem ignore mode infos rep h = refl

  pub payload_lem :
      (text : Text) (f : ℤ) (linked : Bool) (mode : Mode) (infos : ℕ) (rep : Service)
      → let v : View = record {
        failures = f;
        linked = linked;
        mode = mode;
        infos = infos;
        reporter = rep;
      } in
        IsView v
        → handle (payload text (true ∷ [])) (system_of b d v)
          ≡ some (system_of b d (view_step (payload text (true ∷ [])) v))
  unfolding handle
  payload_lem text f true mode infos rep h =
      rw (h.sound refl) (effect_lem (effect_of text) mode infos rep h.live)
  payload_lem text f false mode infos rep h = refl

  answered_by :
      (loops : ℕ) (s : System)
      → (elim loops [ zero ↦ some s | suc n ↦ after (after_answer published) s ]) ≡ some s
  unfolding after after_answer
  answered_by zero s = refl
  answered_by (suc n) s = refl

  pub published_lem : (s : System) → handle (answered published) s ≡ some s
  unfolding handle
  published_lem s = answered_by s.reporter.loops s
