-- ===== src/Tests/Measures.antt =====
-- A host whose files can be read, and the instruments on it.
use telemd.Base.{
  ◌≡◌, refl, true, false, Option, none, some, List, [], ◌∷◌, ◌++◌, Text, codes, arith, equal,
  text_dec, if◌then◌else◌, map,
}
use telemd.Base.Int.{ℤ, pos, eqb_ℤ, add64, sub64, mul64}
use telemd.Base.Dict.{Dict}
use telemd.Base.Dict
use telemd.Go.Strconv.{not_exist, failure, parse_int}
use telemd.Go.Strings.{split, fields, slice, contains}
use telemd.Go.Decimal.{format_int}
use telemd.Go.Float.{Floats}
use telemd.Host.{Host, start, next, scanned, not_opened, FileInfo}
use telemd.Fileio.{read_line_and_parse_int, read_first_line, parse_int64_array, parse_int64}
use telemd.Cfg.Devices.{list_filter_dir}
use telemd.Sysparse.{read_block_device_stats}
use telemd.Sysparse.Containers.{
  container_process_ids, read_total_process_network_stats, all_pids, get_container_id,
}
use telemd.Sysparse.Processes.{container_process_ids-found_in, found_in, directories}
use telemd.Measure.Rates.{measure_network_data_rate, measure_disk_data_rate, Report}
use telemd.Measure.Rates.Returning.{all_readable, measure_network_data_rate-all_readable}
use telemd.Measure.Rates.Disks.{
  measure_disk_data_rate-readable_puts, puts_of, readable_puts, AllHaveColumns,
}
use telemd.Measure.{put_each}
use telemd.Measure.Cgroups.{read_cgroup_cpu, docker_dirs}
use telemd.Measure.Containers.{measure_docker_cgroupv1_cpu, put_value}
use telemd.Measure.Containers.Naming.{
  measure_docker_cgroupv1_cpu-readings, readings, any_short, short_topic,
}
use telemd.Measure.Networks.{container_turn, refresh, container_turn_gone}
use telemd.Tests.Hosts.{bare_host}

-- Whole numbers in place of floating-point ones.
abbrev pub whole_numbers : Floats
whole_numbers = record {
  Float = ℤ;
  zero = pos 0;
  add = add64;
  sub = sub64;
  mul = mul64;
  div = λ a b. a;
  of_int = λ a. a;
  to_int = λ a. a;
  parse = parse_int;
  format = format_int;
  beq = eqb_ℤ;
}

-- One network device, one disk, and a process of a docker container behind a directory that is
-- no process.
abbrev files : Text → Option (List Text)
files path =
    if equal path (codes "/sys/class/net/eth0/statistics/rx_bytes")
    then some (codes "123000" ∷ [])
    else if equal path (codes "/sys/class/net/eth0/statistics/tx_bytes")
    then some (codes "4000" ∷ [])
    else if equal path (codes "/sys/block/sda/stat")
    then some (codes "  1 2 3 4  5 6 7 8" ∷ [])
    else if equal path (codes "/proc/17/cgroup")
    then some (codes "4:cpu:/docker/0123456789abcdef" ∷ [])
    else none

abbrev listing : List FileInfo
listing =
    record { name = codes "acpi"; is_dir = true }
    ∷ record { name = codes "17"; is_dir = true }
    ∷ record { name = codes "stat"; is_dir = false }
    ∷ []

abbrev lab_host : Host
lab_host = record bare_host {
  read_file =
      λ m path. elim (files path) [ none ↦ not_opened not_exist | some lines ↦ scanned lines none ];
  read_dir = λ m path. if equal path (codes "/proc") then (listing, none) else ([], some failure);
}

abbrev pub docker_host : Host
docker_host = record bare_host {
  read_file = λ m path. scanned (codes "77" ∷ []) none;
  read_dir = λ m path. (record { name = codes "0123456789abcdef"; is_dir = true } ∷ [], none);
}

measure_network_data_rate-all_readable_example :
    (measure_network_data_rate whole_numbers lab_host start
      (codes "eth0" ∷ codes "eth1" ∷ [])).returns
    ≡ all_readable whole_numbers lab_host start 0 (codes "eth0" ∷ codes "eth1" ∷ [])
measure_network_data_rate-all_readable_example =
    measure_network_data_rate-all_readable whole_numbers lab_host start
      (codes "eth0" ∷ codes "eth1" ∷ [])

waits_for_ever :
    ((measure_network_data_rate whole_numbers lab_host start (codes "eth0" ∷ [])).returns ≡ true)
    × ((measure_network_data_rate whole_numbers lab_host start
          (codes "eth0" ∷ codes "eth1" ∷ [])).returns
        ≡ false)
unfolding measure_network_data_rate read_line_and_parse_int parse_int text_dec
waits_for_ever = (refl, refl)

sda_HasColumns : AllHaveColumns whole_numbers lab_host start 0 (codes "sda" ∷ codes "sdb" ∷ [])
unfolding AllHaveColumns read_block_device_stats read_first_line parse_int64_array fields parse_int
    text_dec parse_int64
sda_HasColumns = (omega arith, omega arith, (tt, tt, tt))

measure_disk_data_rate-readable_puts_example :
    (r : Report whole_numbers) × (measure_disk_data_rate whole_numbers lab_host start
        (codes "sda" ∷ codes "sdb" ∷ [])
      ≡ some r)
    × (r.returns ≡ true)
    × (puts_of r.goroutines
        ≡ readable_puts whole_numbers lab_host start 0 (codes "sda" ∷ codes "sdb" ∷ []))
measure_disk_data_rate-readable_puts_example =
    measure_disk_data_rate-readable_puts whole_numbers lab_host start
      (codes "sda" ∷ codes "sdb" ∷ []) sda_HasColumns

measure_docker_cgroupv1_cpu-readings_example :
    let dir : Text = codes "/sys/fs/cgroup/cpuacct/docker" in
    let rs : List (Text × ℤ) =
      readings
        (λ n id. read_cgroup_cpu docker_host n (dir ++ (b'/' ∷ id)))
        (next start)
        (docker_dirs docker_host start dir) in
    measure_docker_cgroupv1_cpu whole_numbers docker_host start ≡ (
      if any_short rs
      then none
      else some (map (short_topic whole_numbers (codes "docker_cgrp_cpu/")) rs))
measure_docker_cgroupv1_cpu-readings_example =
    measure_docker_cgroupv1_cpu-readings whole_numbers docker_host start

docker_cpu :
    measure_docker_cgroupv1_cpu whole_numbers docker_host start
    ≡ some ((codes "docker_cgrp_cpu/0123456789ab", pos 77) ∷ [])
unfolding measure_docker_cgroupv1_cpu read_cgroup_cpu read_line_and_parse_int parse_int text_dec
    docker_dirs put_each put_value slice list_filter_dir
docker_cpu = refl

container_process_ids-found_in_example :
    Dict.lookup (codes "0123456789abcdef") ((codes "0123456789abcdef", codes "17") ∷ [])
    ≡ Dict.lookup
        (codes "0123456789abcdef")
        (found_in lab_host (next start) (codes "/proc") (directories listing))
unfolding container_process_ids all_pids get_container_id text_dec contains split Dict.lookup
    Dict.insert
container_process_ids-found_in_example =
    container_process_ids-found_in lab_host start (codes "/proc") listing
      ((codes "0123456789abcdef", codes "17") ∷ []) (codes "0123456789abcdef") refl refl

abbrev known : Dict Text
known = (codes "a", codes "5") ∷ (codes "b", codes "6") ∷ []

container_turn_gone_example :
    (pids' : Dict Text) × (container_turn whole_numbers
        (codes "docker_cgrp_net/")
        lab_host
        (codes "/proc")
        start
        (codes "a")
        known
      ≡ some (pids', []))
    × (container_turn whole_numbers
          (codes "docker_cgrp_net/")
          lab_host
          (codes "/proc")
          (next start)
          (codes "a")
          pids'
        ≡ refresh whole_numbers
            (codes "docker_cgrp_net/")
            lab_host
            (codes "/proc")
            (next start)
            (codes "a")
            pids')
    × ((other : Text)
        → equal (codes "a") other ≡ false
        → Dict.lookup other pids' ≡ Dict.lookup other known)
unfolding read_total_process_network_stats text_dec Dict.lookup
container_turn_gone_example =
    container_turn_gone whole_numbers (codes "docker_cgrp_net/") lab_host (codes "/proc") start
      (next start) (codes "a") (codes "5") known ([], []) refl refl
