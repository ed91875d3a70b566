-- ===== src/Tests/Settings.antt =====
-- The configuration from concrete layers.
use telemd.Base.{
  ◌≡◌, refl, sym, ap, ◌∙◌, Option, none, some, [], Text, codes, equal, text_dec, if◌then◌else◌, ◌*◌,
  ◌&&◌, ◌||◌, inr,
}
use telemd.Base.Int.{ℤ, pos}
use telemd.Base.Dict.{Dict}
use telemd.Base.Dict
use mathlib.Core.Option
use mathlib.Core.Option.{or_else}
use telemd.Go.Time.{second}
use telemd.Host.{start, Moment}
use telemd.Env.{Environment, IniFile, lookup_duration, ini_lookup}
use telemd.Cfg.{Config, load_periods, or_keep, new_default_config}
use telemd.Main.{load_config}
use telemd.Main.Precedence.{
  IsRead, layered_config, all_periods, load_config-layered, load_config_periods,
  load_config_backoff,
}
use telemd.Tests.Hosts.{bare_host, byte_count}

-- Above the sections the file has devices and a backoff; the node's section has a period and a mount.
abbrev ini_file : IniFile
ini_file = record {
  has_key = λ s k.
      (equal s [] && (equal k (codes "telemd_net_devices")))
      || (equal s [] && (equal k (codes "telemd_redis_Retry_backoff")))
      || (equal s (codes "rpi0") && equal k (codes "telemd_period_ram"))
      || (equal s (codes "rpi0") && equal k (codes "telemd_proc_mount"));
  value = λ s k. if equal k (codes "telemd_net_devices") then codes "wlan0 eth1" else codes "3s";
}

abbrev variables : Environment
variables key = if equal key (codes "telemd_period_cpu") then some (codes "250ms") else none

abbrev load : Moment → Text → Option IniFile
load m path = some ini_file

is_read : IsRead bare_host byte_count load variables start ini_file
unfolding text_dec
is_read = record { present = refl; first = refl; second = refl }

load_config-layered_example :
    load_config bare_host byte_count load variables start
    ≡ Option.map
        (layered_config bare_host byte_count load variables start ini_file)
        (all_periods bare_host byte_count load variables start ini_file)
load_config-layered_example =
    load_config-layered bare_host byte_count load variables start ini_file is_read

abbrev final_periods : Dict ℤ
final_periods = or_keep (all_periods bare_host byte_count load variables start ini_file) []

final_periods_lem :
    all_periods bare_host byte_count load variables start ini_file ≡ some final_periods
unfolding load_periods lookup_duration text_dec ini_lookup new_default_config
final_periods_lem = refl

abbrev loaded_config : Config
loaded_config = layered_config bare_host byte_count load variables start ini_file final_periods

loaded : load_config bare_host byte_count load variables start ≡ some loaded_config
loaded =
    load_config-layered_example
    ∙ ap (Option.map (layered_config bare_host byte_count load variables start ini_file))
        final_periods_lem

-- "ram" has its period from the node's section.
load_config_periods_example : Dict.lookup (codes "ram") loaded_config.periods ≡ some (pos 2)
unfolding or_else text_dec Dict.lookup ini_lookup new_default_config
load_config_periods_example =
    load_config_periods bare_host byte_count load variables start ini_file {c = loaded_config}
      (codes "ram") is_read loaded

-- A backoff of three seconds stands above the sections.
load_config_backoff_example : loaded_config.redis_retry_backoff ≡ pos (5 * second)
unfolding text_dec ini_lookup new_default_config
load_config_backoff_example =
    load_config_backoff bare_host byte_count load variables start ini_file {c = loaded_config}
      (λ text e. cc)
      (inr (is_read, (λ text e. cc), (λ text e. ap (λ o. (byte_count (or_keep o [])).1) (sym e))))
      loaded
