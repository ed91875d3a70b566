-- ===== src/Main/System/Running.antt =====
-- The running program is in the state that its operator sees, for events that are handled one after
-- the other.
use telemd.Base.{
  ◌≡◌, refl, true, false, Option, none, some, List, [], ◌∷◌, All, Bool-cases, inl, inr, ◌>>=◌,
  if◌then◌else◌,
}
use telemd.Base.Int.{ℤ}
use telemd.Redis.Limiter.{new_limiter}
use telemd.Redis.Client.{new_reconnecting_client}
use telemd.Daemon.{Daemon}
use telemd.Daemon.Pausing.{all_positive, start_tickers-on_air}
use telemd.Server.{published, client_closed, other_error}
use telemd.Main.System.{
  obeyed, System, set_up, Event, attempted, payload, no_message, answered, handle, handle_all,
}
use telemd.Main.System.Views.{View, IsView, system_of, view_step, IsOrderly, view_run, begun}
use telemd.Main.System.Listening.{attempted_lem, payload_lem, published_lem}
use telemd.Main.System.Views.Steps.{view_step-IsView, begun-IsView}

module _ (b : ℤ) (d : Daemon) (g : all_positive d.tickers ≡ true) where
  handle-view_step :
      (e : Event) (v : View)
      → IsView v
      → IsOrderly e
      → handle e (system_of b d v) ≡ some (system_of b d (view_step e v))
  unfolding handle
  handle-view_step (attempted r success) v h o =
      rw o (attempted_lem b d g r v.failures v.linked v.mode v.infos v.reporter h)
  handle-view_step (payload text rs) v h o =
      rw o (payload_lem b d g text v.failures v.linked v.mode v.infos v.reporter h)
  handle-view_step no_message v h o = absurd o
  handle-view_step (answered published) v h o = published_lem b d g (system_of b d v)
  handle-view_step (answered client_closed) v h o = absurd o
  handle-view_step (answered other_error) v h o = absurd o
  handle-view_step obeyed v h o = refl

  pub handle_all-view_run_from :
      (es : List Event) (v : View)
      → IsView v
      → All IsOrderly es
      → handle_all es (system_of b d v) ≡ some (system_of b d (view_run es v))
  unfolding handle_all
  handle_all-view_run_from [] v h o = refl
  handle_all-view_run_from (e ∷ es) v h (o, os) =
      rw (handle-view_step e v h o)
        (handle_all-view_run_from es (view_step e v) (view_step-IsView e v h) os)

set_up-begun :
    (b : ℤ) (d : Daemon)
    → d.is_paused_by_command ≡ false
    → set_up b d ≡ (if all_positive d.tickers then some (system_of b d begun) else none)
unfolding set_up new_reconnecting_client new_limiter
set_up-begun b d h =
    rw (start_tickers-on_air d h)
      (elim (Bool-cases (all_positive d.tickers)) [ inl g ↦ rw g refl | inr g ↦ rw g refl ])

-- What goes on behind orderly events goes on from the state in view.
pub behind_events {ℓ} :
    {A : Type ℓ} (b : ℤ) (d : Daemon) (es : List Event) (f : System → Option A)
    → d.is_paused_by_command ≡ false
    → all_positive d.tickers ≡ true
    → All IsOrderly es
    → (set_up b d >>= λ s. handle_all es s >>= f) ≡ f (system_of b d (view_run es begun))
behind_events b d es f h g o =
    rw (set_up-begun b d h, g, handle_all-view_run_from b d g es begun begun-IsView o) refl

-- For a daemon that no command has paused yet: if every ticker has a positive period, then for
-- every orderly sequence of events, each handled to its end before the next, neither the listener
-- nor a loop of the server blocks or panics, and the program is in the state that the operator's
-- view says: one loop of the command server runs while the connection is announced as up, and none
-- otherwise; the tickers have the phase that commands and connection give them; the node's
-- information was written once for the first connection and once for each command `info` that was
-- received; and the reporter has begun a loop for the first connection and for each recovery, and
-- ended one each time that a loop took the value of a `Stop`, whenever that was. If a period is
-- not positive the program panics when it starts. Orderly are the events in which the node's
-- information can be written where it is, the subscription stays open, and the telemetry that is
-- published arrives in the end.
pub handle_all-view_run :
    (b : ℤ) (d : Daemon) (es : List Event)
    → d.is_paused_by_command ≡ false
    → All IsOrderly es
    → (set_up b d >>= handle_all es)
      ≡ (if all_positive d.tickers then some (system_of b d (view_run es begun)) else none)
handle_all-view_run b d es h o = elim (Bool-cases (all_positive d.tickers)) [
  | inl g ↦ rw (set_up-begun b d h, g) (handle_all-view_run_from b d g es begun begun-IsView o)
  | inr g ↦ rw (set_up-begun b d h, g) refl
]
