-- ===== src/Measure/Dispatch/Names.antt =====
-- The metrics in the topics, and the names of the instruments as the README lists them.
use telemd.Base.{◌≡◌, ◌||◌, [], ◌∷◌, Text, codes, equal, ◌==◌, if◌then◌else◌}
use telemd.Instrument.{
  Instrument, cpu_info_frequency, cpu_scaling_frequency, cpu_util, load, procs, ram, psi_cpu,
  psi_memory, psi_io, wifi_rx_bitrate, wifi_tx_bitrate, wifi_signal, network_data_rate,
  disk_data_rate, docker_cgroupv1_cpu, docker_cgroupv2_cpu, docker_cgroupv1_blkio,
  docker_cgroupv2_blkio, docker_cgroupv1_memory, docker_cgroupv2_memory, kubernetes_cgroupv1_cpu,
  kubernetes_cgroupv2_cpu, kubernetes_cgroupv1_blkio, kubernetes_cgroupv2_blkio,
  kubernetes_cgroupv1_memory, kubernetes_cgroupv2_memory, docker_cgroupv1_network,
  docker_cgroupv2_network, kubernetes_cgroupv1_network, kubernetes_cgroupv2_network,
}

-- The metric of a topic: what stands before the first slash.
unfoldable pub metric_of : Text → Text
metric_of [] = []
metric_of (c ∷ s) = let rest = metric_of s in if c == b'/' then [] else c ∷ rest

-- The name of the instrument that reports a metric. Most metrics have their instrument's name.
unfoldable pub owner : Text → Text
owner metric =
    if equal metric (codes "load1") || equal metric (codes "load5")
    then codes "load"
    else if equal metric (codes "tx") || equal metric (codes "rx")
    then codes "net"
    else if equal metric (codes "rd") || equal metric (codes "wr")
    then codes "disk"
    else metric

-- The name under which the documentation lists an instrument.
unfoldable pub name_of : Instrument → Text
name_of cpu_info_frequency = codes "freq"
name_of cpu_scaling_frequency = codes "freq"
name_of cpu_util = codes "cpu"
name_of load = codes "load"
name_of procs = codes "procs"
name_of ram = codes "ram"
name_of psi_cpu = codes "psi_cpu"
name_of psi_memory = codes "psi_memory"
name_of psi_io = codes "psi_io"
name_of (wifi_rx_bitrate device) = codes "rx_bitrate"
name_of (wifi_tx_bitrate device) = codes "tx_bitrate"
name_of (wifi_signal device) = codes "signal"
name_of (network_data_rate devices) = codes "net"
name_of (disk_data_rate devices) = codes "disk"
name_of docker_cgroupv1_cpu = codes "docker_cgrp_cpu"
name_of docker_cgroupv2_cpu = codes "docker_cgrp_cpu"
name_of docker_cgroupv1_blkio = codes "docker_cgrp_blkio"
name_of docker_cgroupv2_blkio = codes "docker_cgrp_blkio"
name_of docker_cgroupv1_memory = codes "docker_cgrp_memory"
name_of docker_cgroupv2_memory = codes "docker_cgrp_memory"
name_of kubernetes_cgroupv1_cpu = codes "kubernetes_cgrp_cpu"
name_of kubernetes_cgroupv2_cpu = codes "kubernetes_cgrp_cpu"
name_of kubernetes_cgroupv1_blkio = codes "kubernetes_cgrp_blkio"
name_of kubernetes_cgroupv2_blkio = codes "kubernetes_cgrp_blkio"
name_of kubernetes_cgroupv1_memory = codes "kubernetes_cgrp_memory"
name_of kubernetes_cgroupv2_memory = codes "kubernetes_cgrp_memory"
name_of (docker_cgroupv1_network pids proc_mount) = codes "docker_cgrp_net"
name_of (docker_cgroupv2_network pids proc_mount) = codes "docker_cgrp_net"
name_of (kubernetes_cgroupv1_network pids proc_mount) = codes "kubernetes_cgrp_net"
name_of (kubernetes_cgroupv2_network pids proc_mount) = codes "kubernetes_cgrp_net"

abbrev pub BelongsTo : Text → Text → Type 0
BelongsTo name topic = owner (metric_of topic) ≡ name
