-- ===== src/Cfg.antt =====
-- internal/telemd/cfg.go: the configuration, its defaults, and the layers laid over them.
pub mod Devices
pub mod Layers
use telemd.Base.{
  ℕ, ◌*◌, Bool, true, false, ◌&&◌, not, Option, none, some, List, [], ◌∷◌, ◌++◌, Text, codes,
  if◌then◌else◌, ◌>>=◌,
}
use telemd.Base.Int.{ℤ, pos}
use telemd.Base.Dict.{Dict}
use telemd.Go.Strconv.{Err, WithErr}
use telemd.Go.Time.{second, millisecond}
use telemd.Host.{Host, Moment, next}
use telemd.Env.{Environment, lookup_fields, lookup_duration}
use telemd.Cfg.Devices.{network_devices, block_devices}

-- The struct with its nested structs laid flat. A nil slice and an empty one are not told apart,
-- and the program never does.
pub record Config : Type 0 where
  pub node_name : Text
  pub redis_url : Text
  pub redis_retry_backoff : ℤ
  pub enable : List Text
  pub disable : List Text
  pub periods : Dict ℤ
  pub net_devices : List Text
  pub disk_devices : List Text
  pub proc_mount : Text

abbrev pub half_second : ℤ
half_second = pos (500 * millisecond)

abbrev pub one_second : ℤ
one_second = pos (1 * second)

abbrev pub default_periods : Dict ℤ
default_periods =
    (codes "cpu", half_second)
    ∷ (codes "freq", half_second)
    ∷ (codes "procs", half_second)
    ∷ (codes "ram", one_second)
    ∷ (codes "load", pos (5 * second))
    ∷ (codes "net", half_second)
    ∷ (codes "disk", half_second)
    ∷ (codes "psi_cpu", half_second)
    ∷ (codes "psi_io", half_second)
    ∷ (codes "psi_memory", half_second)
    ∷ (codes "tx_bitrate", one_second)
    ∷ (codes "rx_bitrate", one_second)
    ∷ (codes "signal", one_second)
    ∷ (codes "docker_cgrp_cpu", one_second)
    ∷ (codes "docker_cgrp_blkio", one_second)
    ∷ (codes "docker_cgrp_net", one_second)
    ∷ (codes "docker_cgrp_memory", one_second)
    ∷ (codes "kubernetes_cgrp_cpu", one_second)
    ∷ (codes "kubernetes_cgrp_blkio", one_second)
    ∷ (codes "kubernetes_cgrp_memory", one_second)
    ∷ (codes "kubernetes_cgrp_net", one_second)
    ∷ []

-- Errors of the host name and of the listings are logged, and the values kept.
unfoldable pub new_default_config : Host → Moment → Config
new_default_config H m = record {
  node_name = (H.hostname m).0;
  redis_url = codes "redis://localhost";
  redis_retry_backoff = pos (5 * second);
  enable = [];
  disable = [];
  periods = default_periods;
  net_devices = (network_devices H (next m)).0;
  disk_devices = (block_devices H (next (next m))).0;
  proc_mount = [];
}

abbrev pub or_keep {ℓ} : {A : Type ℓ} → Option A → A → A
or_keep none old = old
or_keep (some a) old = a

-- The URL that the variables of the redis server make, if any.
unfoldable pub redis_url_from : Environment → Option Text
redis_url_from env = elim (env (codes "telemd_redis_url")) [
  | some url ↦ some url
  | none ↦ elim (env (codes "telemd_redis_host")) [
    | none ↦ none
    | some host ↦ elim (env (codes "telemd_redis_port")) [
      | some port ↦ some (codes "redis://" ++ (host ++ (b':' ∷ port)))
      | none ↦ some (codes "redis://" ++ host)
    ]
  ]
]

-- `if devices, ok, err := ...; err == nil && ok { ... } else if err != nil { log.Fatal }`: the
-- value read, the old one, or `none` for the end of the program.
abbrev pub assign {ℓ} : {A : Type ℓ} → A × Bool × Option Err → A → Option A
assign (v, true, none) old = some v
assign (v, false, none) old = some old
assign (v, ok, some err) old = none

module _ (parse_duration : Text → WithErr ℤ) (env : Environment) where
  -- As the code stands, the backoff is set if the duration does not parse.
  unfoldable pub backoff_from : ℤ → ℤ
  backoff_from old = elim (env (codes "telemd_redis_Retry_backoff")) [
    | none ↦ old
    | some text ↦ elim (parse_duration text).1 [ none ↦ old | some err ↦ (parse_duration text).0 ]
  ]

  abbrev pub period_key : Text → Text
  period_key instrument = codes "telemd_period_" ++ instrument

  -- The loop over the periods, in the order of the list.
  unfoldable pub load_periods : Dict ℤ → Option (Dict ℤ)
  load_periods [] = some []
  load_periods ((instrument, period) ∷ rest) =
      elim (assign (lookup_duration parse_duration env (period_key instrument)) period) [
        | none ↦ none
        | some period' ↦ elim (load_periods rest) [
          | none ↦ none
          | some rest' ↦ some ((instrument, period') ∷ rest')
        ]
      ]

  -- The method, with `none` for `log.Fatal`. The fatal branches end the program whatever else is
  -- read, so their order does not show.
  pub load_from_environment : Config → Option Config
  load_from_environment cfg = do
    net_devices' ← assign (lookup_fields env (codes "telemd_net_devices")) cfg.net_devices
    disk_devices' ← assign (lookup_fields env (codes "telemd_disk_devices")) cfg.disk_devices
    periods' ← load_periods cfg.periods
    enable' ← assign (lookup_fields env (codes "telemd_instruments_enable")) cfg.enable
    disable' ← assign (lookup_fields env (codes "telemd_instruments_disable")) cfg.disable
    some (record {
      node_name = or_keep (env (codes "telemd_nodename")) cfg.node_name;
      redis_url = or_keep (redis_url_from env) cfg.redis_url;
      redis_retry_backoff = backoff_from cfg.redis_retry_backoff;
      enable = enable';
      disable = disable';
      periods = periods';
      net_devices = net_devices';
      disk_devices = disk_devices';
      proc_mount = or_keep (env (codes "telemd_proc_mount")) (codes "/proc");
    })
