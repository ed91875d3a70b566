-- ===== src/Measure/Networks.antt =====
-- internal/telemd/instrument.go: the network instruments of docker, which keep the processes of the
-- containers between measurements. `none` is a panic.
pub mod Kubernetes
pub mod Topics
use telemd.Base.{
  ◌-◌, ◌≡◌, refl, Option, none, some, List, [], ◌∷◌, ◌++◌, Text, codes, ◌>>=◌, length, equal_refl,
  false, equal,
}
use telemd.Base.Int.{ℤ, pos, add64}
use telemd.Base.Dict.{Dict}
use telemd.Base.Dict
use telemd.Go.Strconv.{not_exist, WithErr}
use telemd.Go.Strings.{slice}
use telemd.Go.Float.{Floats}
use telemd.Host.{Host, Moment, next, child}
use telemd.Sysparse.Containers.{NetStats, container_process_ids, read_total_process_network_stats}
use telemd.Measure.{Put}
use telemd.Measure.Cgroups.{docker_dirs, list_cgroupv2_folders}
use telemd.Measure.Containers.{system_slice}

-- What one container's turn leaves: the processes known, and the puts.
abbrev pub Turn : Floats → Type 0
Turn F = Dict Text × List (Put F)

-- `txValues[device]`, 0 where it is missing.
abbrev or_zero : Option ℤ → ℤ
or_zero none = pos 0
or_zero (some v) = v

-- The kind of container is the beginning of the topics.
module _ (F : Floats) (kind : Text) where
  -- The loop over the devices, with the sums so far.
  pub device_puts : Text → Dict ℤ → Dict ℤ → ℤ → ℤ → List (Put F)
  device_puts id [] tx_values rx tx = (kind ++ id, F.of_int (add64 rx tx)) ∷ []
  device_puts id ((device, irx) ∷ rx_values) tx_values rx tx =
      let topic = kind ++ (id ++ (b'/' ∷ device)) in
      let itx = or_zero (Dict.lookup device tx_values) in
      (topic, F.of_int (add64 irx itx))
      ∷ (topic ++ codes "/rx", F.of_int irx)
      ∷ (topic ++ codes "/tx", F.of_int itx)
      ∷ device_puts id rx_values tx_values (add64 rx irx) (add64 tx itx)

  -- A process that is gone is forgotten; any other error is logged.
  unfoldable pub after_stats : Text → Dict Text → WithErr NetStats → Turn F
  unfolding device_puts
  after_stats id pids ((rx_values, tx_values), none) =
      (pids, device_puts id rx_values tx_values (pos 0) (pos 0))
  after_stats id pids (_, some not_exist) = (Dict.erase id pids, [])
  after_stats id pids (_, some err) = (pids, [])

module _ (F : Floats) (kind : Text) (H : Host) (proc_mount : Text) where
  -- From `readTotalProcessNetworkStats` on.
  unfoldable pub read_stats : Moment → Text → Dict Text → Text → Option (Turn F)
  unfolding after_stats
  read_stats m id pids pid = do
    stats ← read_total_process_network_stats H m pid proc_mount
    some (after_stats F kind id pids stats)

  pub find_again : Moment → Text → Dict Text → Option Text → Option (Turn F)
  unfolding read_stats
  find_again m id pids (some pid) = read_stats m id pids pid
  find_again m id pids none = some (pids, [])

  -- The block that refreshes the processes, and what follows it.
  pub refresh : Moment → Text → Dict Text → Option (Turn F)
  unfolding find_again
  refresh m id pids = do
    found ← container_process_ids H (child 0 m) proc_mount
    elim found.1 [
      | some err ↦ some (pids, [])
      | none ↦ find_again (child 1 m) id found.0 (Dict.lookup id found.0)
    ]

  pub with_pid : Moment → Text → Dict Text → Option Text → Option (Turn F)
  unfolding read_stats refresh
  with_pid m id pids (some pid) = read_stats (child 1 m) id pids pid
  with_pid m id pids none = refresh m id pids

  -- One turn of the loop over the containers.
  pub container_turn : Moment → Text → Dict Text → Option (Turn F)
  unfolding with_pid
  container_turn m id pids = with_pid m id pids (Dict.lookup id pids)

  pub container_turns : Moment → List Text → Dict Text → Option (Turn F)
  unfolding container_turn
  container_turns m [] pids = some (pids, [])
  container_turns m (id ∷ ids) pids = do
    turn ← container_turn m id pids
    rest ← container_turns (next m) ids turn.0
    some (rest.0, turn.1 ++ rest.1)

  -- Here a folder's name gives the id: "docker-" before it and ".scope" behind it.
  pub folder_turns : Moment → List Text → Dict Text → Option (Turn F)
  unfolding container_turn
  folder_turns m [] pids = some (pids, [])
  folder_turns m (folder ∷ folders) pids = do
    id ← slice folder 7 (length folder - 6)
    turn ← container_turn m id pids
    rest ← folder_turns (next m) folders turn.0
    some (rest.0, turn.1 ++ rest.1)

  -- A process that is gone: the measurement in which its counters are not found puts nothing for
  -- the container and does not panic, and a later one looks for the container's process anew,
  -- whatever else was known; what is known of other containers stays.
  pub container_turn_gone :
      (m n : Moment) (id pid : Text) (pids : Dict Text) (stats : NetStats)
      → Dict.lookup id pids ≡ some pid
      → read_total_process_network_stats H (child 1 m) pid proc_mount ≡ some (stats, some not_exist)
      → (pids' : Dict Text) × (container_turn m id pids ≡ some (pids', []))
        × (container_turn n id pids' ≡ refresh n id pids')
        × ((other : Text)
            → equal id other ≡ false
            → Dict.lookup other pids' ≡ Dict.lookup other pids)
  unfolding container_turn with_pid read_stats
  container_turn_gone m n id pid pids stats known gone = (
    Dict.erase id pids,
    rw (known, gone) (unfold after_stats in refl),
    rw (Dict.lookup-erase id id pids, equal_refl id) refl,
    λ other d. rw (Dict.lookup-erase id other pids, d) refl,
  )

module _ (F : Floats) (H : Host) (proc_mount : Text) where
  -- The argument and the first part of the result are the field `pids`.
  pub measure_docker_cgroupv1_network : Moment → Dict Text → Option (Turn F)
  unfolding container_turns
  measure_docker_cgroupv1_network m pids =
      container_turns F (codes "docker_cgrp_net/") H proc_mount (next m)
        (docker_dirs H m (codes "/sys/fs/cgroup/cpuacct/docker")) pids

  pub measure_docker_cgroupv2_network : Moment → Dict Text → Option (Turn F)
  unfolding folder_turns
  measure_docker_cgroupv2_network m pids =
      folder_turns F (codes "docker_cgrp_net/") H proc_mount (next m)
        (list_cgroupv2_folders H m (codes "docker-") system_slice) pids
