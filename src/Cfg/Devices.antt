-- ===== src/Cfg/Devices.antt =====
-- internal/telemd/cfg.go: the listings of devices, and the speed of the network.
use telemd.Base.{Bool, ◌&&◌, not, none, some, List, [], ◌∷◌, Text, codes, equal, if◌then◌else◌}
use telemd.Go.Strconv.{WithErr}
use telemd.Go.Strings.{has_prefix, trim_space}
use telemd.Host.{Host, Moment, FileInfo}

unfoldable pub filter_names : (FileInfo → Bool) → List FileInfo → List Text
filter_names predicate [] = []
filter_names predicate (f ∷ dir) =
    let rest = filter_names predicate dir in if predicate f then f.name ∷ rest else rest

unfoldable pub list_filter_dir : Host → Moment → Text → (FileInfo → Bool) → WithErr (List Text)
unfolding filter_names
list_filter_dir H m dirname predicate = elim (H.read_dir m dirname).1 [
  | some err ↦ ([], some err)
  | none ↦ (filter_names predicate (H.read_dir m dirname).0, none)
]

unfoldable pub network_devices : Host → Moment → WithErr (List Text)
unfolding list_filter_dir
network_devices H m =
    list_filter_dir H m (codes "/sys/class/net")
      (λ info. not info.is_dir && not (equal info.name (codes "lo")))

unfoldable pub block_devices : Host → Moment → WithErr (List Text)
unfolding list_filter_dir
block_devices H m =
    list_filter_dir H m (codes "/sys/block")
      (λ info. not info.is_dir && not (has_prefix info.name (codes "loop")))

-- The output without the white space around it.
unfoldable pub exec_command : Host → Moment → Text → WithErr Text
exec_command H m args = elim (H.output m args).1 [
  | some err ↦ ([], some err)
  | none ↦ (trim_space (H.output m args).0, none)
]

unfoldable pub find_active_net_device : Host → Moment → WithErr Text
unfolding exec_command
find_active_net_device H m = exec_command H m (codes "route | awk 'NR==3{print $8}'")
