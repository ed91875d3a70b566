-- ===== src/Tests/Daemons.antt =====
-- A daemon under concrete commands and connection states.
use telemd.Base.{◌>>=◌, ◌≡◌, refl, true, false, some, List, [], ◌∷◌, codes, text_dec, ◌*◌}
use telemd.Base.Int.{pos}
use telemd.Base.Dict.{Dict}
use telemd.Base.Dict
use telemd.Go.Time.{second}
use telemd.Host.{start}
use telemd.Ticker.{new_telemetry_ticker}
use telemd.Ticker.Refinement.{active, paused}
use telemd.Instrument.{Instrument, cpu_util, ram}
use telemd.Cfg.{or_keep}
use telemd.Cfg.Devices.{find_active_net_device}
use telemd.Fileio.{file_dir_exists}
use telemd.Sysparse.Containers.{all_pids, container_process_ids}
use telemd.Instrument.{new_docker_cgroup_network, new_kubernetes_cgroup_net}
use telemd.Daemon.{
  base_instruments, init_instruments, add_wireless, remove_all, Daemon, new_daemon, start_tickers,
  pause, unpause, unhandled, select,
}
use telemd.Daemon.Pausing.{
  Event, got, connection_failed, connection_recovered, run_events, in_mode, run_events-mode_run,
  run_events_held,
}
use telemd.Daemon.Selection.{new_daemon_lem}
use telemd.Tests.Hosts.{bare_host, small_config}

abbrev pub two_tickers : Daemon
two_tickers = record {
  cfg = small_config;
  is_paused_by_command = false;
  instruments = (codes "cpu", cpu_util) ∷ (codes "ram", ram) ∷ [];
  tickers =
      (codes "cpu", new_telemetry_ticker (pos 7))
      ∷ (codes "ram", new_telemetry_ticker (pos 9))
      ∷ [];
}

abbrev events : List Event
events =
    got pause
    ∷ connection_failed
    ∷ connection_recovered
    ∷ got (unhandled (codes "x"))
    ∷ got unpause
    ∷ []

run_events-mode_run_example :
    (start_tickers two_tickers >>= run_events events)
    ≡ some (in_mode (record { held = false; phase = active }) two_tickers)
unfolding new_telemetry_ticker
run_events-mode_run_example = run_events-mode_run events two_tickers refl

run_events_held_example :
    (start_tickers two_tickers
      >>= run_events
          (connection_failed ∷ got pause ∷ connection_failed ∷ connection_recovered ∷ []))
    ≡ some (in_mode (record { held = true; phase = paused }) two_tickers)
unfolding new_telemetry_ticker
run_events_held_example =
    run_events_held (connection_failed ∷ []) (connection_failed ∷ connection_recovered ∷ [])
      two_tickers refl refl (tt, (tt, tt))

abbrev available : Dict Instrument
available = or_keep (base_instruments bare_host start small_config) []

available_lem : base_instruments bare_host start small_config ≡ some available
unfolding base_instruments new_docker_cgroup_network new_kubernetes_cgroup_net container_process_ids
    all_pids text_dec
available_lem = refl

abbrev nothing : Daemon
nothing = record two_tickers { instruments = []; tickers = [] }

abbrev chosen : Daemon
chosen = or_keep (new_daemon bare_host start small_config) nothing

chosen_lem : new_daemon bare_host start small_config ≡ some chosen
unfolding new_daemon init_instruments base_instruments new_docker_cgroup_network
    new_kubernetes_cgroup_net container_process_ids all_pids text_dec
chosen_lem = refl

new_daemon_lem_example :
    (Dict.lookup (codes "load") chosen.instruments ≡ some Instrument.load)
    × (Dict.lookup (codes "load") chosen.tickers ≡ some (new_telemetry_ticker (pos (5 * second))))
unfolding text_dec Dict.lookup Dict.insert add_wireless base_instruments new_docker_cgroup_network
    new_kubernetes_cgroup_net container_process_ids all_pids new_daemon init_instruments select
    remove_all Dict.erase find_active_net_device file_dir_exists
new_daemon_lem_example =
    new_daemon_lem bare_host start small_config (codes "load") available_lem chosen_lem
