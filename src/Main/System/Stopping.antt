-- ===== src/Main/System/Stopping.antt =====
-- What the handler of signals leaves, and what keeps goroutines from going on.
use mathlib.Core.Path.{subst}
use telemd.Base.{
  Bool-cases, inl, inr, ◌^◌, ◌<◌, leb, ℕ, ◌≡◌, refl, ◌≢◌, ◌∙◌, Bool, true, false, some, List, ◌>>=◌,
  arith, All,
}
use telemd.Base.Int.{ℤ, pos}
use telemd.Redis.Limiter.{ConnectionState, failed, is_retrying}
use telemd.Redis.Client.{ReconnectingClient, report}
use telemd.Redis.Client
use telemd.Redis.Limiter
use telemd.Ticker.Refinement.{Phase}
use telemd.Daemon.{Daemon, stop_tickers}
use telemd.Daemon.Pausing.{all_positive, Mode, in_mode, call_each_stop}
use telemd.Main.System.{
  Service, stop_reporter, stop_reporter_here, set_up, System, new_service, stop_server, listen,
  deliver, Event, handle_all, close_client, stop_daemon, shut_down,
}
use telemd.Main.System.Views.{open_client, View, service, system_of, IsOrderly, view_run, begun}
use telemd.Main.System.Removal.{
  after_removal, removals, deleted, remove_lem, unserved_lem, after_removal_live,
}
use telemd.Main.System.Running.{behind_events}
use telemd.Main.System.Views.Steps.{view_run-IsView, begun-IsView}

pub stop_tickers-in_mode :
    (m : Mode) (d : Daemon)
    → m.phase ≢ Phase.stopped
    → stop_tickers (in_mode m d)
      ≡ some (in_mode (record { held = m.held; phase = Phase.stopped }) d)
unfolding stop_tickers
stop_tickers-in_mode m d h = rw (call_each_stop m.phase d.tickers h) refl

-- The listener, the tickers and the command loop have returned; what is left are the loops of the
-- reporter, whose `Stop` was called, and the server's loop where there is one.
abbrev pub stopped_system : ℤ → Daemon → View → ℕ → System
stopped_system b d v removed = record {
  client = record (open_client b v.failures) {
    limiter = record { backoff_duration = b; connection_failures = v.failures; closed = true };
    channel_open = false;
  };
  server = service v.linked;
  reporter = stop_reporter v.reporter;
  daemon = in_mode (record { held = v.mode.held; phase = Phase.stopped }) d;
  infos = v.infos;
  removed = removed;
  listening = false;
  commanding = false;
}

-- There is room in the stop channel.
stop_reporter_here_lem :
    (s : Service) → s.buffered < 10 → stop_reporter_here s ≡ some (stop_reporter s)
unfolding stop_reporter_here stop_reporter
stop_reporter_here_lem s room = elim (Bool-cases s.running) [
  | inl runs ↦ let fits : leb 10 s.buffered ≡ false = ground arith in rw (runs, fits) refl
  | inr rests ↦ rw rests refl
]

module _ (b : ℤ) (d : Daemon) (g : all_positive d.tickers ≡ true) where
  pub finish_lem :
      (v : View) (removed : ℕ)
      → v.mode.phase ≢ Phase.stopped
      → v.reporter.buffered < 10
      → (do
        s ← close_client (deleted b d v removed)
        reporter ← stop_reporter_here s.reporter
        stop_daemon (record s { reporter = reporter }))
        ≡ some (stopped_system b d v removed)
  unfolding close_client deliver listen Client.close Limiter.close stop_daemon
  finish_lem v removed live room =
      rw (stop_reporter_here_lem v.reporter room, stop_tickers-in_mode v.mode d live) refl

  stop_server-service : (linked : Bool) → stop_server (service linked) ≡ some new_service
  unfolding stop_server
  stop_server-service true = refl
  stop_server-service false = refl

  shut_down_lem :
      (k n : ℕ) (result : Bool) (v : View)
      → n < 2 ^ 31
      → v.mode.phase ≢ Phase.stopped
      → v.failures ≡ pos k
      → (after_removal k n result v).reporter.buffered < 10
      → shut_down n result (system_of b d v)
        ≡ some (stopped_system b d (after_removal k n result v) (removals k result))
  unfolding shut_down
  shut_down_lem k n result v bound live e room =
      let w : View = record v { failures = pos k } in
      let room' : (after_removal k n result w).reporter.buffered < 10 =
        subst (λ f. (after_removal k n result (record v { failures = f })).reporter.buffered < 10) e
          room in
      rw
        (
          stop_server-service v.linked,
          e,
          remove_lem b d g k n result v.mode v.infos v.reporter bound live,
          unserved_lem k n result w,
        )
        (finish_lem (after_removal k n result w) (removals k result)
          (after_removal_live k n result w live) room')

pub shut_down-handle_all :
    (b : ℤ) (d : Daemon) (es : List Event) (k n : ℕ) (result : Bool)
    → d.is_paused_by_command ≡ false
    → all_positive d.tickers ≡ true
    → All IsOrderly es
    → n < 2 ^ 31
    → let v : View = view_run es begun in
      v.failures ≡ pos k
      → (after_removal k n result v).reporter.buffered < 10
      → (set_up b d >>= λ s. handle_all es s >>= shut_down n result)
        ≡ some (stopped_system b d (after_removal k n result v) (removals k result))
shut_down-handle_all b d es k n result h g o bound e room =
    let v = view_run es begun in
    let is_view = view_run-IsView es begun begun-IsView in
    behind_events b d es (shut_down n result) h g o
    ∙ shut_down_lem b d g k n result v bound is_view.live e room
