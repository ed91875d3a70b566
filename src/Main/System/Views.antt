-- ===== src/Main/System/Views.antt =====
-- The program's state as its operator sees it, and how events change that view.
pub mod Steps
use telemd.Base.{
  ◌^◌, ◌-◌, ℕ, zero, suc, ◌+◌, ◌≡◌, refl, ◌≢◌, Bool, true, false, some, List, [], ◌∷◌,
  if◌then◌else◌, arith,
}
use telemd.Base.Int.{ℤ, pos, negsuc, add64, IsInt64}
use telemd.Redis.Limiter.{ConnectionState, connected, failed, recovered, report_result}
use telemd.Redis.Client.{ReconnectingClient, report}
use telemd.Ticker.Refinement.{Phase}
use telemd.Daemon.{Daemon}
use telemd.Daemon.Pausing.{
  Mode, mode_step, in_mode, got, connection_failed, connection_recovered, on_air,
}
use telemd.Server.{Effect, send, update_node_info, ignore, effect_of, published}
use telemd.Main.System.{
  Service, System, new_service, start_reporter, stop_reporter, obey, Event, attempted, payload,
  no_message, answered, obeyed,
}

-- A client that has not been closed.
abbrev pub open_client : ℤ → ℤ → ReconnectingClient
open_client backoff failures = record {
  limiter = record { backoff_duration = backoff; connection_failures = failures; closed = false };
  channel_open = true;
  max_retries = 2 ^ 31 - 1;
}

abbrev pub failures_after : Bool → ℤ → ℤ
failures_after true f = pos 0
failures_after false f = add64 f (pos 1)

-- The message of one attempt.
abbrev pub messages : Bool → ℤ → List ConnectionState
messages true (negsuc zero) = connected ∷ []
messages true (pos (suc n)) = recovered ∷ []
messages false (pos zero) = failed ∷ []
messages _ _ = []

pub report-messages :
    (b : ℤ) (success : Bool) (f : ℤ)
    → IsInt64 f
    → report success (open_client b f)
      ≡ some (open_client b (failures_after success f), messages success f)
unfolding report report_result
report-messages b true (negsuc zero) h = refl
report-messages b true (negsuc (suc n)) h = ground arith
report-messages b true (pos zero) h = refl
report-messages b true (pos (suc n)) h = ground arith
report-messages b false (negsuc n) h = unfold add64 in ground arith
report-messages b false (pos zero) h = unfold add64 in ground arith
report-messages b false (pos (suc n)) h = unfold add64 in ground arith

-- What the operator sees: the failures of the connection, whether it has been announced as up, the
-- phase of the tickers, how often the node's information was written, and what the calls of `Run`
-- and `Stop` have made of the reporter, whose loops obey when they come to it.
pub record View : Type 0 where
  pub failures : ℤ
  pub linked : Bool
  pub mode : Mode
  pub infos : ℕ
  -- The loops of the reporter with their flag and stop channel.
  pub reporter : Service

-- While the connection is announced there is no failure, and the tickers have not been stopped.
pub record IsView (v : View) : Type 0 where
  pub bounded : IsInt64 v.failures
  pub sound : v.linked ≡ true → v.failures ≡ pos 0
  pub live : v.mode.phase ≢ Phase.stopped

-- One loop while the connection is announced, and none otherwise.
abbrev pub service : Bool → Service
service true = record { loops = 1; running = true; buffered = 0 }
service false = new_service

abbrev pub system_of : ℤ → Daemon → View → System
system_of b d v = record {
  client = open_client b v.failures;
  server = service v.linked;
  reporter = v.reporter;
  daemon = in_mode v.mode d;
  infos = v.infos;
  removed = 0;
  listening = true;
  commanding = true;
}

abbrev pub attempt_step : Bool → ℤ → View → View
attempt_step true (negsuc zero) v = record v {
  failures = pos 0;
  linked = true;
  infos = v.infos + 1;
  reporter = start_reporter v.reporter;
}
attempt_step true (pos (suc n)) v = record v {
  failures = pos 0;
  linked = true;
  mode = mode_step connection_recovered v.mode;
  reporter = start_reporter v.reporter;
}
attempt_step true f v = record v { failures = pos 0 }
attempt_step false (pos zero) v = record v {
  failures = pos 1;
  linked = false;
  mode = mode_step connection_failed v.mode;
  reporter = stop_reporter v.reporter;
}
attempt_step false f v = record v { failures = add64 f (pos 1) }

abbrev pub effect_step : Effect → View → View
effect_step (send c) v = record v { mode = mode_step (got c) v.mode }
effect_step update_node_info v = record v { infos = v.infos + 1 }
effect_step ignore v = v

abbrev pub view_step : Event → View → View
view_step (attempted result success) v = attempt_step result v.failures v
view_step (payload text rs) v = if v.linked then effect_step (effect_of text) v else v
view_step obeyed v = record v { reporter = obey v.reporter }
view_step _ v = v

-- The events of a program whose connection fails only between the operations of its server: the
-- node's information can be written when it is, the subscription stays open, and the reporter's
-- messages are published.
abbrev pub IsOrderly : Event → Type 0
IsOrderly (attempted result success) = success ≡ true
IsOrderly (payload text rs) = rs ≡ true ∷ []
IsOrderly no_message = ⊥
IsOrderly (answered published) = Unit
IsOrderly obeyed = Unit
IsOrderly (answered _) = ⊥

abbrev pub view_run : List Event → View → View
view_run [] v = v
view_run (e ∷ es) v = view_run es (view_step e v)

-- The program when everything has been set up and nothing has been sent yet.
abbrev pub begun : View
begun = record {
  failures = negsuc 0;
  linked = false;
  mode = on_air;
  infos = 0;
  reporter = new_service;
}
