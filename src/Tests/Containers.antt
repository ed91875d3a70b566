-- ===== src/Tests/Containers.antt =====
-- Containers at concrete hosts.
use telemd.Base.{
  ◌+◌, ◌-◌, ◌^◌, ◌≡◌, refl, List, map, inl, true, none, some, [], ◌∷◌, Text, codes, arith,
  replicate, text_dec, equal, if◌then◌else◌,
}
use telemd.Base.Dict.{Dict}
use telemd.Base.Dict
use telemd.Go.Strconv.{failure}
use telemd.Go.Strings.{split, contains}
use telemd.Host.{Host, start, scanned}
use telemd.Cfg.Devices.{list_filter_dir}
use telemd.Sysparse.Containers.{read_total_process_network_stats}
use telemd.Measure.Containers.{base_name, kubernetes_dirs}
use telemd.Measure.Cgroups.{
  fetch_kubernetes_container_dirs, read_cgroup_cpu, read_cgroupv2_cpu, read_cgroupv2_blkio,
}
use telemd.Measure.Cgroups.Usage.{read_cgroupv2_cpu-read_cgroup_cpu}
use telemd.Go.Decimal.{format}
use telemd.Measure.Cgroups.IoStat.{IoLine, text_of, all_read, all_written, read_cgroupv2_blkio-sum}
use telemd.Base.Int.{pos, wrap64}
use telemd.Measure.Networks.{read_stats, after_stats}
use telemd.Measure.Networks.Kubernetes.{
  Forgets, measure_kubernetes_cgroupv1_network, measure_kubernetes_network-Forgets,
}
use telemd.Tests.Hosts.{bare_host}
use telemd.Tests.Measures.{whole_numbers}

-- One pod with one container, whose process is gone.
abbrev long_id : Text
long_id = replicate 64 b'a'

abbrev pod_host : Host
pod_host = record bare_host {
  read_dir = λ m path.
      if equal path (codes "/sys/fs/cgroup/cpuacct/kubepods/besteffort")
      then (record { name = codes "pod1"; is_dir = true } ∷ [], none)
      else if equal path (codes "/sys/fs/cgroup/cpuacct/kubepods/besteffort/pod1")
      then (record { name = long_id; is_dir = true } ∷ [], none)
      else ([], some failure);
}

measure_kubernetes_network-Forgets_example : Forgets ((long_id, codes "5") ∷ []) []
unfolding measure_kubernetes_cgroupv1_network text_dec base_name kubernetes_dirs
    fetch_kubernetes_container_dirs list_filter_dir read_total_process_network_stats split contains
    Dict.lookup Dict.erase read_stats after_stats
measure_kubernetes_network-Forgets_example =
    measure_kubernetes_network-Forgets whole_numbers pod_host (codes "/proc") start (λ dirs. dirs)
      ((long_id, codes "5") ∷ []) (record { stored = []; own = none }, []) (inl refl)

-- The usage of a disk and of one without any, as the kernel writes them.
abbrev disk_lines : List IoLine
disk_lines =
    record {
      device = codes "259:0";
      read = 10113024;
      written = 5;
      others = codes "rios=149 wios=0 dbytes=0 dios=0";
    }
    ∷ record { device = codes "8:16"; read = 2 ^ 63 - 1; written = 2 ^ 62; others = [] }
    ∷ []

abbrev io_host : Host
io_host = record bare_host { read_file = λ m path. scanned (map text_of disk_lines) none }

read_cgroupv2_blkio-sum_example :
    read_cgroupv2_blkio io_host start (codes "/c")
    ≡ some (wrap64 (pos (all_read disk_lines + all_written disk_lines)), none)
read_cgroupv2_blkio-sum_example =
    read_cgroupv2_blkio-sum io_host start (codes "/c") disk_lines none
      ((omega arith, omega arith, omega arith), ((omega arith, omega arith, omega arith), tt)) refl

-- The same time in nanoseconds and in microseconds.
abbrev busy_host : Host
busy_host = record bare_host {
  read_file = λ m path.
      if equal path (codes "/c/cpuacct.usage")
      then scanned (codes "24710000" ∷ []) none
      else scanned (codes "usage_usec 24710" ∷ codes "user_usec 0" ∷ []) none;
}

read_cgroupv2_cpu-read_cgroup_cpu_example :
    (read_cgroup_cpu busy_host start (codes "/c") ≡ (pos 24710000, none))
    × (read_cgroupv2_cpu busy_host start (codes "/d")
        ≡ some (read_cgroup_cpu busy_host start (codes "/c")))
unfolding text_dec format
read_cgroupv2_cpu-read_cgroup_cpu_example =
    read_cgroupv2_cpu-read_cgroup_cpu busy_host start start (codes "/c") (codes "/d")
      (codes "usage_usec") 24710 [] (codes "user_usec 0" ∷ []) none none (omega arith) (omega arith)
      refl refl
