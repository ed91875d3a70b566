-- ===== src/Tests/Instruments.antt =====
-- The instruments of a daemon on a host with one container of docker.
use telemd.Base.{All, ◌≡◌, refl, true, false, some, [], ◌∷◌, codes, text_dec}
use telemd.Base.Dict
use telemd.Host.{start}
use telemd.Cfg.{or_keep}
use telemd.Cfg.Devices.{find_active_net_device, list_filter_dir}
use telemd.Fileio.{file_dir_exists, read_line_and_parse_int}
use telemd.Measure.{put_each}
use telemd.Measure.Cgroups.{read_cgroup_cpu, docker_dirs}
use telemd.Measure.Containers.{measure_docker_cgroupv1_cpu, put_value}
use telemd.Sysparse.Containers.{
  all_pids, container_process_ids, get_container_id, find_container_id,
}
use telemd.Go.Strings.{contains, slice}
use telemd.Go.Strconv.{parse_int}
use telemd.Base.Int.{pos}
use telemd.Instrument.{
  docker_cgroupv1_cpu, new_docker_cgroup_cpu, check_cgroup, new_docker_cgroup_network,
  new_kubernetes_cgroup_net,
}
use telemd.Measure.Dispatch.{Measured, measure_and_report}
use telemd.Daemon.{
  Daemon, base_instruments, init_instruments, add_wireless, remove_all, new_daemon, select,
}
use telemd.Telem.{Telemetry, new_telemetry, is_empty, unix_time_string}
use telemd.Telem.Stamp.{at}
use telemd.Telem.Channel.{done, and_then}
use telemd.Telem.Channel
use telemd.Server.{report}
use telemd.Server.Traffic.{Traffic, put, turn, quiet, publish, step, run}
use telemd.Server.Traffic.Order.{puts_in}
use telemd.Server.Traffic.Topics
use telemd.Server.Traffic.Topics.{Origin, IsOwned, unmeasured, published_topics}
use mathlib.Core.List.Memᴰ.{head}
use telemd.Tests.Hosts.{small_config}
use telemd.Tests.Measures.{whole_numbers, docker_host}

abbrev nothing : Daemon
nothing = record {
  cfg = small_config;
  is_paused_by_command = false;
  instruments = [];
  tickers = [];
}

abbrev made : Daemon
made = or_keep (new_daemon docker_host start small_config) nothing

made_lem : new_daemon docker_host start small_config ≡ some made
unfolding new_daemon init_instruments base_instruments new_docker_cgroup_network
    new_kubernetes_cgroup_net container_process_ids all_pids text_dec get_container_id contains
    find_container_id
made_lem = refl

abbrev measured : Measured whole_numbers
measured = record {
  instrument = docker_cgroupv1_cpu;
  puts = (codes "docker_cgrp_cpu/0123456789ab", pos 77) ∷ [];
  returns = true;
}

measured_lem :
    measure_and_report whole_numbers docker_host [] (λ dirs. dirs) start docker_cgroupv1_cpu
    ≡ some measured
unfolding measure_and_report measure_docker_cgroupv1_cpu read_cgroup_cpu read_line_and_parse_int
    parse_int text_dec docker_dirs put_each put_value slice list_filter_dir
measured_lem = refl

kept_lem : Dict.lookup (codes "docker_cgrp_cpu") made.instruments ≡ some docker_cgroupv1_cpu
unfolding text_dec Dict.lookup Dict.insert add_wireless base_instruments new_docker_cgroup_network
    new_kubernetes_cgroup_net container_process_ids all_pids new_daemon init_instruments select
    remove_all Dict.erase find_active_net_device file_dir_exists get_container_id contains
    find_container_id new_docker_cgroup_cpu check_cgroup
kept_lem = refl

abbrev put_once : Telemetry whole_numbers
put_once =
    new_telemetry whole_numbers (codes "rpi0") (at 16 5) (codes "docker_cgrp_cpu/0123456789ab")
      (pos 77)

-- The instrument is measured for the second time.
put_once-Origin : Origin whole_numbers docker_host (codes "rpi0") made put_once
put_once-Origin = record {
  name = codes "docker_cgrp_cpu";
  kept = docker_cgroupv1_cpu;
  instrument = docker_cgroupv1_cpu;
  files = [];
  order = λ dirs. dirs;
  moment = start;
  measurement = measured;
  topic = codes "docker_cgrp_cpu/0123456789ab";
  value = pos 77;
  time = at 16 5;
  stands = kept_lem;
  became = Topics.measured [] (λ dirs. dirs) start measured unmeasured measured_lem;
  ran = measured_lem;
  among = head refl;
  made = refl;
}

abbrev received : Traffic whole_numbers
received = record {
  channel = record { sending = put_once ∷ []; closed = false };
  published = (codes "telem/rpi0/docker_cgrp_cpu/0123456789ab", codes "16.5 77") ∷ [];
}

received_lem :
    run whole_numbers (put put_once ∷ put put_once ∷ turn ∷ []) (quiet whole_numbers)
    ≡ done received
unfolding run and_then step Channel.put Channel.receive_telemetry publish report is_empty text_dec
    unix_time_string new_telemetry
received_lem = refl

published_topics_example :
    All (IsOwned whole_numbers docker_host (codes "rpi0") made) received.published
unfolding puts_in
published_topics_example =
    published_topics whole_numbers docker_host start small_config made (codes "rpi0")
      (put put_once ∷ put put_once ∷ turn ∷ []) received refl made_lem
      (put_once-Origin, (put_once-Origin, tt)) received_lem
