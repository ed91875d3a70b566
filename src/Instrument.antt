-- ===== src/Instrument.antt =====
-- internal/telemd/instrument.go: the instruments and their factory.
use telemd.Base.{Option, some, List, Text, codes, equal, if◌then◌else◌, ◌>>=◌}
use telemd.Base.Dict.{Dict}
use telemd.Host.{Host, Moment, next}
use telemd.Fileio.{is_not_exist}
use telemd.Sysparse.Containers.{container_process_ids}

-- The structs that implement the interface, with their fields.
pub data Instrument : Type 0 where
  cpu_info_frequency cpu_scaling_frequency cpu_util load procs ram : Instrument
  psi_cpu psi_memory psi_io : Instrument
  wifi_rx_bitrate wifi_tx_bitrate wifi_signal : Text → Instrument
  network_data_rate disk_data_rate : List Text → Instrument
  docker_cgroupv1_cpu docker_cgroupv2_cpu : Instrument
  docker_cgroupv1_blkio docker_cgroupv2_blkio : Instrument
  docker_cgroupv1_network docker_cgroupv2_network : Dict Text → Text → Instrument
  docker_cgroupv1_memory docker_cgroupv2_memory : Instrument
  kubernetes_cgroupv1_cpu kubernetes_cgroupv2_cpu : Instrument
  kubernetes_cgroupv1_blkio kubernetes_cgroupv2_blkio : Instrument
  kubernetes_cgroupv1_memory kubernetes_cgroupv2_memory : Instrument
  kubernetes_cgroupv1_network kubernetes_cgroupv2_network : Dict Text → Text → Instrument

-- The three factories. The two for an architecture embed the default one and override nothing.
pub data InstrumentFactory : Type 0 where
  default_factory arm_factory x86_factory : InstrumentFactory

-- In Go a case does not fall through: "arm" ends in the default factory.
unfoldable pub new_instrument_factory : Text → InstrumentFactory
new_instrument_factory arch =
    if equal arch (codes "amd64")
    then x86_factory
    else if equal arch (codes "arm")
    then default_factory
    else if equal arch (codes "arm64")
    then arm_factory
    else default_factory

pub data Cgroup : Type 0 where
  v1 v2 : Cgroup

unfoldable pub check_cgroup : Host → Moment → Cgroup
check_cgroup H m =
    if is_not_exist (H.stat m (codes "/sys/fs/cgroup/cgroup.controllers")) then v1 else v2

-- `cgroup == "v1"`, the struct for it and the struct otherwise.
abbrev pub by_cgroup {ℓ} : {A : Type ℓ} → Cgroup → A → A → A
by_cgroup v1 a b = a
by_cgroup v2 a b = b

-- The factory's methods that only fill a struct.
abbrev pub new_cpu_frequency : Instrument
new_cpu_frequency = cpu_scaling_frequency

abbrev pub new_cpu_util : Instrument
new_cpu_util = cpu_util

abbrev pub new_load : Instrument
new_load = load

abbrev pub new_procs : Instrument
new_procs = procs

abbrev pub new_ram : Instrument
new_ram = ram

abbrev pub new_network_data_rate : List Text → Instrument
new_network_data_rate devices = network_data_rate devices

abbrev pub new_disk_data_rate : List Text → Instrument
new_disk_data_rate devices = disk_data_rate devices

abbrev pub new_wifi_tx_bitrate : Text → Instrument
new_wifi_tx_bitrate device = wifi_tx_bitrate device

abbrev pub new_wifi_rx_bitrate : Text → Instrument
new_wifi_rx_bitrate device = wifi_rx_bitrate device

abbrev pub new_wifi_signal : Text → Instrument
new_wifi_signal device = wifi_signal device

abbrev pub new_psi_cpu : Instrument
new_psi_cpu = psi_cpu

abbrev pub new_psi_memory : Instrument
new_psi_memory = psi_memory

abbrev pub new_psi_io : Instrument
new_psi_io = psi_io

-- The factory's methods that ask the host.
module _ (H : Host) (m : Moment) where
  unfoldable pub new_docker_cgroup_cpu : Instrument
  new_docker_cgroup_cpu = by_cgroup (check_cgroup H m) docker_cgroupv1_cpu docker_cgroupv2_cpu

  unfoldable pub new_docker_cgroup_blkio : Instrument
  new_docker_cgroup_blkio = by_cgroup (check_cgroup H m) docker_cgroupv1_blkio docker_cgroupv2_blkio

  unfoldable pub new_docker_cgroup_memory : Instrument
  new_docker_cgroup_memory =
      by_cgroup (check_cgroup H m) docker_cgroupv1_memory docker_cgroupv2_memory

  -- An error is logged, and the nil map kept.
  unfoldable pub new_docker_cgroup_network : Text → Option Instrument
  new_docker_cgroup_network proc_mount = do
    pids ← container_process_ids H m proc_mount
    some (
        by_cgroup (check_cgroup H (next m)) (docker_cgroupv1_network pids.0 proc_mount)
          (docker_cgroupv2_network pids.0 proc_mount))

  unfoldable pub new_kubernetes_cgroup_cpu : Instrument
  new_kubernetes_cgroup_cpu =
      by_cgroup (check_cgroup H m) kubernetes_cgroupv1_cpu kubernetes_cgroupv2_cpu

  unfoldable pub new_kubernetes_cgroup_blkio : Instrument
  new_kubernetes_cgroup_blkio =
      by_cgroup (check_cgroup H m) kubernetes_cgroupv1_blkio kubernetes_cgroupv2_blkio

  unfoldable pub new_kubernetes_cgroup_memory : Instrument
  new_kubernetes_cgroup_memory =
      by_cgroup (check_cgroup H m) kubernetes_cgroupv1_memory kubernetes_cgroupv2_memory

  unfoldable pub new_kubernetes_cgroup_net : Text → Option Instrument
  new_kubernetes_cgroup_net proc_mount = do
    pids ← container_process_ids H m proc_mount
    some (
        by_cgroup (check_cgroup H (next m)) (kubernetes_cgroupv1_network pids.0 proc_mount)
          (kubernetes_cgroupv2_network pids.0 proc_mount))
