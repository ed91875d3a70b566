-- ===== src/Main/System/Early.antt =====
-- A signal that comes before an attempt to reach redis has been answered.
use telemd.Base.{
  ◌<◌, ◌∙◌, suc, ℕ, ◌+◌, ◌≡◌, refl, ◌≢◌, true, false, some, List, ◌>>=◌, arith, All, Bool-cases,
  inl, inr,
}
use telemd.Base.Int.{ℤ, negsuc}
use telemd.Ticker.Refinement.{Phase}
use telemd.Daemon.{Daemon}
use telemd.Daemon.Pausing.{all_positive, Mode}
use telemd.Main.System.{
  Service, obey, remove_after, set_up, System, Event, handle_all, shut_down, remove_node_info,
  stop_server, stop_reporter, start_reporter,
}
use telemd.Main.System.Views.{attempt_step, View, IsView, system_of, IsOrderly, view_run, begun}
use telemd.Main.System.Running.{behind_events}
use telemd.Main.System.Listening.{attempted_lem}
use telemd.Main.System.Views.Steps.{view_run-IsView, begun-IsView}
use telemd.Main.System.Removal.{is_retrying-retries}
use telemd.Main.System.Stopping.{stopped_system, finish_lem}

-- The view behind the first answer.
abbrev pub answered_view : View → View
answered_view v = attempt_step true (negsuc 0) v

-- What the handler of signals leaves.
abbrev pub left_behind : ℤ → Daemon → View → System
left_behind b d v = stopped_system b d (answered_view v) 1

obey-stop_reporter :
    (s : Service) → obey (stop_reporter (start_reporter s)) ≡ record s { running = false }
unfolding stop_reporter start_reporter obey
obey-stop_reporter s =
    let loops : s.loops + 1 ≡ suc s.loops = omega arith in
    let values : s.buffered + 1 ≡ suc s.buffered = omega arith in rw (loops, values) refl

module _ (b : ℤ) (d : Daemon) (g : all_positive d.tickers ≡ true) where
  abbrev unanswered : Mode → ℕ → Service → View
  unanswered mode infos rep = record {
    failures = negsuc 0;
    linked = false;
    mode = mode;
    infos = infos;
    reporter = rep;
  }

  unanswered_lem :
      (mode : Mode) (infos : ℕ) (rep : Service)
      → mode.phase ≢ Phase.stopped
      → rep.buffered < 10
      → shut_down 0 true (system_of b d (unanswered mode infos rep))
        ≡ some (left_behind b d (unanswered mode infos rep))
  unfolding shut_down remove_node_info remove_after stop_server
  unanswered_lem mode infos rep live room =
      let is_view : IsView (unanswered mode infos rep) = record {
        bounded = omega arith;
        sound = λ l. absurd (cc l);
        live = live;
      } in
      rw
        (
          is_retrying-retries b (negsuc 0),
          attempted_lem b d g true (negsuc 0) false mode infos rep is_view,
        )
        (finish_lem b d g (answered_view (unanswered mode infos rep)) 1 live
          (unfold start_reporter in room))

  unanswered_view :
      (v : View) → IsView v → v.failures ≡ negsuc 0 → v ≡ unanswered v.mode v.infos v.reporter
  unanswered_view v h e =
      let unlinked : v.linked ≡ false = elim (Bool-cases v.linked) [
        | inl up ↦ absurd (cc (h.sound up, e))
        | inr down ↦ down
      ] in
      λ i. record {
        failures = e i;
        linked = unlinked i;
        mode = v.mode;
        infos = v.infos;
        reporter = v.reporter;
      }

-- For a daemon that no command had paused at the start, and whose tickers all have positive
-- periods, and with room in the reporter's stop channel: if the signal comes, behind orderly
-- events, before any attempt to reach redis has been answered, and redis answers the deletion of
-- the node's information at once, that answer is the first one: the listener starts the server and
-- the reporter and writes the information, once more than it had been, while the handler of
-- signals runs to its end, having deleted it once and stopped all but the server's loop; the
-- reporter's loop takes the value of `Stop`, and as many are left as there were before.
pub early_signal :
    (b : ℤ) (d : Daemon) (es : List Event)
    → d.is_paused_by_command ≡ false
    → all_positive d.tickers ≡ true
    → All IsOrderly es
    → let v : View = view_run es begun in
      v.failures ≡ negsuc 0
      → v.reporter.buffered < 10
      → ((set_up b d >>= λ s. handle_all es s >>= shut_down 0 true) ≡ some (left_behind b d v))
        × (obey (left_behind b d v).reporter ≡ record v.reporter { running = false })
early_signal b d es h g o e room =
    let v = view_run es begun in
    let is_view = view_run-IsView es begun begun-IsView in
    (
      behind_events b d es (shut_down 0 true) h g o
          ∙ rw (unanswered_view b d g v is_view e)
              (unanswered_lem b d g v.mode v.infos v.reporter is_view.live room),
      obey-stop_reporter v.reporter,
    )
