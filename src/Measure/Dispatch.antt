-- ===== src/Measure/Dispatch.antt =====
-- internal/telemd/instrument.go: `MeasureAndReport` of the interface `Instrument`, as a ticker calls
-- it. `none` is a panic or `log.Fatal`.
pub mod Names
pub mod Owners
use mathlib.Core.Option
use telemd.Base.{Bool, true, Option, some, List, Text, codes}
use telemd.Go.Float.{Floats}
use telemd.Host.{Host, Moment}
use telemd.Instrument.{
  Instrument, cpu_info_frequency, cpu_scaling_frequency, cpu_util, load, procs, ram, psi_cpu,
  psi_memory, psi_io, wifi_rx_bitrate, wifi_tx_bitrate, wifi_signal, network_data_rate,
  disk_data_rate, docker_cgroupv1_cpu, docker_cgroupv2_cpu, docker_cgroupv1_blkio,
  docker_cgroupv2_blkio, docker_cgroupv1_network, docker_cgroupv2_network, docker_cgroupv1_memory,
  docker_cgroupv2_memory, kubernetes_cgroupv1_cpu, kubernetes_cgroupv2_cpu,
  kubernetes_cgroupv1_blkio, kubernetes_cgroupv2_blkio, kubernetes_cgroupv1_memory,
  kubernetes_cgroupv2_memory, kubernetes_cgroupv1_network, kubernetes_cgroupv2_network,
}
use telemd.Measure.{
  Put, measure_cpu_util, measure_cpu_info_frequency, measure_cpu_scaling_frequency, measure_load,
  measure_procs, measure_ram, measure_psi, measure_wifi,
}
use telemd.Measure.Rates.{Report, all_puts, measure_network_data_rate, measure_disk_data_rate}
use telemd.Measure.Containers.{
  measure_docker_cgroupv1_cpu, measure_docker_cgroupv2_cpu, measure_docker_cgroupv1_blkio,
  measure_docker_cgroupv2_blkio, measure_docker_cgroupv1_memory, measure_docker_cgroupv2_memory,
  measure_kubernetes_cgroupv1_cpu, measure_kubernetes_cgroupv2_cpu,
  measure_kubernetes_cgroupv1_blkio, measure_kubernetes_cgroupv2_blkio,
  measure_kubernetes_cgroupv1_memory, measure_kubernetes_cgroupv2_memory,
}
use telemd.Measure.Networks.{Turn, measure_docker_cgroupv1_network, measure_docker_cgroupv2_network}
use telemd.Measure.Networks.Kubernetes.{
  Copy, measure_kubernetes_cgroupv1_network, measure_kubernetes_cgroupv2_network,
}

-- A measurement: the instrument behind it, what it put, and whether it returns.
pub record Measured (F : Floats) : Type 0 where
  pub instrument : Instrument
  pub puts : List (Put F)
  pub returns : Bool

module _ {F : Floats} where
  pub plain : Instrument → Option (List (Put F)) → Option (Measured F)
  plain i o = Option.map (λ ps. record { instrument = i; puts = ps; returns = true }) o

  pub waiting : Instrument → Report F → Measured F
  waiting i r = record { instrument = i; puts = all_puts F r.goroutines; returns = r.returns }

  -- An instrument of docker keeps the processes that it knows.
  pub keeping : (Turn F → Instrument) → Option (Turn F) → Option (Measured F)
  keeping again o =
      Option.map (λ turn. record { instrument = again turn; puts = turn.1; returns = true }) o

  -- An instrument of kubernetes keeps its map, not that of the call's copy.
  pub keeping_stored : (Copy → Instrument) → Option (Copy × List (Put F)) → Option (Measured F)
  keeping_stored again o =
      Option.map (λ r. record { instrument = again r.0; puts = r.1; returns = true }) o

-- The files of the variable `cpuScalingFiles`, and the order in which containers have their turns.
module _ (F : Floats) (H : Host) (files : List Text) (order : List Text → List Text)
    (m : Moment) where
  unfoldable pub measure_and_report : Instrument → Option (Measured F)
  unfolding plain waiting keeping keeping_stored
  measure_and_report cpu_info_frequency =
      plain cpu_info_frequency (measure_cpu_info_frequency F H m)
  measure_and_report cpu_scaling_frequency =
      plain cpu_scaling_frequency (measure_cpu_scaling_frequency F H m files)
  measure_and_report cpu_util = plain cpu_util (measure_cpu_util F H m)
  measure_and_report load = plain load (measure_load F H m)
  measure_and_report procs = plain procs (measure_procs F H m)
  measure_and_report ram = plain ram (measure_ram F H m)
  measure_and_report psi_cpu = plain psi_cpu (measure_psi F H m (codes "cpu"))
  measure_and_report psi_memory = plain psi_memory (measure_psi F H m (codes "memory"))
  measure_and_report psi_io = plain psi_io (measure_psi F H m (codes "io"))
  measure_and_report (wifi_rx_bitrate device) =
      plain (wifi_rx_bitrate device)
        (some (measure_wifi F H m (codes "rx_bitrate") (codes "rx bitrate") 3 device))
  measure_and_report (wifi_tx_bitrate device) =
      plain (wifi_tx_bitrate device)
        (some (measure_wifi F H m (codes "tx_bitrate") (codes "tx bitrate") 3 device))
  measure_and_report (wifi_signal device) =
      plain (wifi_signal device)
        (some (measure_wifi F H m (codes "signal") (codes "signal") 2 device))
  measure_and_report (network_data_rate devices) =
      some (waiting (network_data_rate devices) (measure_network_data_rate F H m devices))
  measure_and_report (disk_data_rate devices) =
      Option.map (waiting (disk_data_rate devices)) (measure_disk_data_rate F H m devices)
  measure_and_report docker_cgroupv1_cpu =
      plain docker_cgroupv1_cpu (measure_docker_cgroupv1_cpu F H m)
  measure_and_report docker_cgroupv2_cpu =
      plain docker_cgroupv2_cpu (measure_docker_cgroupv2_cpu F H m)
  measure_and_report docker_cgroupv1_blkio =
      plain docker_cgroupv1_blkio (measure_docker_cgroupv1_blkio F H m)
  measure_and_report docker_cgroupv2_blkio =
      plain docker_cgroupv2_blkio (measure_docker_cgroupv2_blkio F H m)
  measure_and_report (docker_cgroupv1_network pids proc_mount) =
      keeping (λ turn. docker_cgroupv1_network turn.0 proc_mount)
        (measure_docker_cgroupv1_network F H proc_mount m pids)
  measure_and_report (docker_cgroupv2_network pids proc_mount) =
      keeping (λ turn. docker_cgroupv2_network turn.0 proc_mount)
        (measure_docker_cgroupv2_network F H proc_mount m pids)
  measure_and_report docker_cgroupv1_memory =
      plain docker_cgroupv1_memory (measure_docker_cgroupv1_memory F H m)
  measure_and_report docker_cgroupv2_memory =
      plain docker_cgroupv2_memory (measure_docker_cgroupv2_memory F H m)
  measure_and_report kubernetes_cgroupv1_cpu =
      plain kubernetes_cgroupv1_cpu (measure_kubernetes_cgroupv1_cpu F H m)
  measure_and_report kubernetes_cgroupv2_cpu =
      plain kubernetes_cgroupv2_cpu (measure_kubernetes_cgroupv2_cpu F H m)
  measure_and_report kubernetes_cgroupv1_blkio =
      plain kubernetes_cgroupv1_blkio (measure_kubernetes_cgroupv1_blkio F H m)
  measure_and_report kubernetes_cgroupv2_blkio =
      plain kubernetes_cgroupv2_blkio (measure_kubernetes_cgroupv2_blkio F H m)
  measure_and_report kubernetes_cgroupv1_memory =
      plain kubernetes_cgroupv1_memory (measure_kubernetes_cgroupv1_memory F H m)
  measure_and_report kubernetes_cgroupv2_memory =
      plain kubernetes_cgroupv2_memory (measure_kubernetes_cgroupv2_memory F H m)
  measure_and_report (kubernetes_cgroupv1_network pids proc_mount) =
      keeping_stored (λ c. kubernetes_cgroupv1_network c.stored proc_mount)
        (measure_kubernetes_cgroupv1_network F H proc_mount m order pids)
  measure_and_report (kubernetes_cgroupv2_network pids proc_mount) =
      keeping_stored (λ c. kubernetes_cgroupv2_network c.stored proc_mount)
        (measure_kubernetes_cgroupv2_network F H proc_mount m order pids)
