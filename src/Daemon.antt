-- ===== src/Daemon.antt =====
-- internal/telemd/daemon.go and cmd.go: the daemon with its instruments, tickers and commands.
pub mod Selection
pub mod Pausing
pub mod Waiting
pub mod Names
use telemd.Base.{
  ℕ, ◌*◌, Bool, true, false, ◌&&◌, not, Option, none, some, List, [], ◌∷◌, ◌++◌, Text, codes, equal,
  if◌then◌else◌, ◌>>=◌, length, ◌==◌, leb,
}
use telemd.Base.Int.{ℤ, pos}
use telemd.Base.Dict.{Dict}
use telemd.Base.Dict
use telemd.Go.Time.{second}
use telemd.Host.{Host, Moment, next, child}
use telemd.Cfg.{Config}
use telemd.Cfg.Devices.{find_active_net_device}
use telemd.Fileio.{file_dir_exists}
use telemd.Ticker.{
  Ticker, new_telemetry_ticker, start, call, pause_call, unpause_call, stop_call, Call,
}
use telemd.Instrument.{
  Instrument, new_cpu_frequency, new_cpu_util, new_load, new_procs, new_ram, new_network_data_rate,
  new_disk_data_rate, new_wifi_tx_bitrate, new_wifi_rx_bitrate, new_wifi_signal, new_psi_cpu,
  new_psi_memory, new_psi_io, new_docker_cgroup_cpu, new_docker_cgroup_blkio,
  new_docker_cgroup_memory, new_docker_cgroup_network, new_kubernetes_cgroup_cpu,
  new_kubernetes_cgroup_blkio, new_kubernetes_cgroup_memory, new_kubernetes_cgroup_net,
}

-- The struct; its channels are met where they are used.
pub record Daemon : Type 0 where
  pub cfg : Config
  pub is_paused_by_command : Bool
  pub instruments : Dict Instrument
  pub tickers : Dict Ticker

-- The map literal of `initInstruments`; `none` is a panic while the containers are listed. The
-- three factories make the same instruments, so the factory is no argument.
unfoldable pub base_instruments : Host → Moment → Config → Option (Dict Instrument)
base_instruments H m cfg = do
  docker_net ← new_docker_cgroup_network H (child 0 m) cfg.proc_mount
  kubernetes_net ← new_kubernetes_cgroup_net H (child 1 m) cfg.proc_mount
  some (
      (codes "cpu", new_cpu_util)
      ∷ (codes "freq", new_cpu_frequency)
      ∷ (codes "load", new_load)
      ∷ (codes "procs", new_procs)
      ∷ (codes "ram", new_ram)
      ∷ (codes "net", new_network_data_rate cfg.net_devices)
      ∷ (codes "disk", new_disk_data_rate cfg.disk_devices)
      ∷ (codes "psi_cpu", new_psi_cpu)
      ∷ (codes "psi_memory", new_psi_memory)
      ∷ (codes "psi_io", new_psi_io)
      ∷ (codes "docker_cgrp_cpu", new_docker_cgroup_cpu H (child 2 m))
      ∷ (codes "docker_cgrp_blkio", new_docker_cgroup_blkio H (child 3 m))
      ∷ (codes "docker_cgrp_net", docker_net)
      ∷ (codes "docker_cgrp_memory", new_docker_cgroup_memory H (child 4 m))
      ∷ (codes "kubernetes_cgrp_cpu", new_kubernetes_cgroup_cpu H (child 5 m))
      ∷ (codes "kubernetes_cgrp_blkio", new_kubernetes_cgroup_blkio H (child 6 m))
      ∷ (codes "kubernetes_cgrp_memory", new_kubernetes_cgroup_memory H (child 7 m))
      ∷ (codes "kubernetes_cgrp_net", kubernetes_net)
      ∷ [])

-- The instruments of a wireless interface, if that is the active one.
unfoldable pub add_wireless : Host → Moment → Dict Instrument → Dict Instrument
add_wireless H m instruments =
    let (device, err) = find_active_net_device H m in
    elim err [
      | some e ↦ instruments
      | none ↦
          if file_dir_exists H (next m) (codes "/sys/class/net/" ++ (device ++ codes "/wireless"))
          then Dict.insert (codes "signal") (new_wifi_signal device) (
              Dict.insert (codes "rx_bitrate") (new_wifi_rx_bitrate device)
                (Dict.insert (codes "tx_bitrate") (new_wifi_tx_bitrate device) instruments))
          else instruments
    ]

-- The loop over the disabled names.
unfoldable pub remove_all {ℓ} : {V : Type ℓ} → List Text → Dict V → Dict V
remove_all [] d = d
remove_all (k ∷ ks) d = remove_all ks (Dict.erase k d)

-- `if value, ok := instruments[key]; ok { daemon.instruments[key] = value }`
pub take_one {ℓ} : {V : Type ℓ} → Text → Option V → Dict V → Dict V
take_one k none taken = taken
take_one k (some v) taken = Dict.insert k v taken

-- The loop over the enabled names, into a new map.
pub take_all {ℓ} : {V : Type ℓ} → List Text → Dict V → Dict V → Dict V
unfolding take_one
take_all [] d taken = taken
take_all (k ∷ ks) d taken = take_all ks d (take_one k (Dict.lookup k d) taken)

-- The last branches of `initInstruments`.
unfoldable pub select {ℓ} : {V : Type ℓ} → Config → Dict V → Dict V
select cfg instruments =
    if leb 1 (length cfg.disable)
    then remove_all cfg.disable instruments
    else if leb 1 (length cfg.enable)
    then take_all cfg.enable instruments []
    else instruments

unfoldable pub init_instruments : Host → Moment → Config → Option (Dict Instrument)
init_instruments H m cfg = do
  instruments ← base_instruments H m cfg
  some (select cfg (add_wireless H (child 8 m) instruments))

-- The period of an instrument, one second if none is configured.
abbrev pub period_of : Config → Text → ℤ
period_of cfg k = elim (Dict.lookup k cfg.periods) [
  | some period ↦ period
  | none ↦ pos (1 * second)
]

pub init_tickers : Config → Dict Instrument → Dict Ticker
init_tickers cfg [] = []
init_tickers cfg ((k, instrument) ∷ rest) =
    (k, new_telemetry_ticker (period_of cfg k)) ∷ init_tickers cfg rest

unfoldable pub new_daemon : Host → Moment → Config → Option Daemon
new_daemon H m cfg = do
  instruments ← init_instruments H m cfg
  some (record {
    cfg = cfg;
    is_paused_by_command = false;
    instruments = instruments;
    tickers = init_tickers cfg instruments;
  })

-- `startTickers`, once every goroutine has begun; `none` where one of them panics, which ends the
-- program.
pub start_all : Dict Ticker → Option (Dict Ticker)
start_all [] = some []
start_all ((k, t) ∷ ts) = do t' ← start t; ts' ← start_all ts; some ((k, t') ∷ ts')

pub start_tickers : Daemon → Option Daemon
unfolding start_all
start_tickers d = do ts ← start_all d.tickers; some (record d { tickers = ts })

-- One call of every ticker in turn; `none` where a call blocks for good or panics.
pub call_each : Call → Dict Ticker → Option (Dict Ticker)
call_each c [] = some []
call_each c ((k, t) ∷ ts) = do t' ← call c t; ts' ← call_each c ts; some ((k, t') ∷ ts')

pub pause_tickers : Daemon → Option Daemon
pause_tickers d = do ts ← call_each pause_call d.tickers; some (record d { tickers = ts })

pub unpause_tickers : Daemon → Option Daemon
unpause_tickers d =
    if d.is_paused_by_command
    then some d
    else (call_each unpause_call d.tickers >>= λ ts. some (record d { tickers = ts }))

-- A command; the texts that name none are logged.
pub data Command : Type 0 where
  pause unpause : Command
  unhandled : Text → Command

pub handle_command : Command → Daemon → Option Daemon
handle_command pause d = pause_tickers (record d { is_paused_by_command = true })
handle_command unpause d = unpause_tickers (record d { is_paused_by_command = false })
handle_command (unhandled text) d = some d

-- The loop `runCommandLoop` over what it receives: a command, or a flag on the stop channel.
pub data Order : Type 0 where
  command : Command → Order
  stop_flag : Bool → Order

-- The second component says that the loop has returned.
unfoldable pub run_command_loop : List Order → Daemon → Option (Daemon × Bool)
run_command_loop [] d = some (d, false)
run_command_loop (stop_flag true ∷ rest) d = some (d, true)
run_command_loop (stop_flag false ∷ rest) d = run_command_loop rest d
run_command_loop (command c ∷ rest) d = elim (handle_command c d) [
  | none ↦ none
  | some d' ↦ run_command_loop rest d'
]

-- The second half of `Stop`.
unfoldable pub stop_tickers : Daemon → Option Daemon
stop_tickers d = do ts ← call_each stop_call d.tickers; some (record d { tickers = ts })
