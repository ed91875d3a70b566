-- ===== src/Tests/Hosts.antt =====
-- A host and a configuration for the runs.
use telemd.Base.{false, none, some, [], ◌∷◌, Text, codes, equal, if◌then◌else◌, length}
use telemd.Base.Int.{ℤ, pos}
use telemd.Go.Strconv.{not_exist, failure, WithErr, syntax}
use telemd.Host.{Host, not_opened}
use telemd.Cfg.{Config, default_periods}

-- Nothing can be read but the listing of the network devices; every path but those of
-- control groups exists.
abbrev pub bare_host : Host
bare_host = record {
  hostname = λ m. (codes "rpi0", none);
  read_file = λ m path. not_opened not_exist;
  read_dir = λ m path.
      if equal path (codes "/sys/class/net")
      then (
        record { name = codes "lo"; is_dir = false }
            ∷ record { name = codes "eth0"; is_dir = false }
            ∷ [],
        none,
      )
      else ([], some failure);
  stat = λ m path.
      if equal path (codes "/sys/fs/cgroup/cgroup.controllers") then some not_exist else none;
  output = λ m args. (codes "wlan0\n", none);
  now = λ m. record { sec = pos 1606436822; nsec = 5 };
  arch = codes "arm64";
  num_cpu = 4;
}

-- A text of two bytes or more is a duration of as many nanoseconds.
abbrev pub byte_count : Text → WithErr ℤ
byte_count (c ∷ d ∷ s) = (pos (length (c ∷ d ∷ s)), none)
byte_count s = (pos 0, some syntax)

abbrev pub small_config : Config
small_config = record {
  node_name = codes "rpi0";
  redis_url = codes "redis://localhost";
  redis_retry_backoff = pos 5;
  enable = codes "cpu" ∷ codes "ram" ∷ [];
  disable = codes "ram" ∷ codes "typo" ∷ [];
  periods = default_periods;
  net_devices = codes "eth0" ∷ [];
  disk_devices = [];
  proc_mount = codes "/proc";
}
