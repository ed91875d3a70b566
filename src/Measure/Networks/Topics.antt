-- ===== src/Measure/Networks/Topics.antt =====
-- The topics of the network instruments of containers.
use mathlib.Core.Path.{subst}
use telemd.Base.{
  ◌≡◌, sym, Option, none, some, List, [], ◌∷◌, ◌++◌, Text, codes, ◌>>=◌, All-append, append_assoc,
  length, ◌-◌,
}
use telemd.Base.Int.{ℤ, pos}
use telemd.Base.Dict.{Dict}
use telemd.Base.Dict
use telemd.Go.Strconv.{syntax, range, not_exist, failure, message, WithErr}
use telemd.Go.Strings.{slice}
use telemd.Go.Float.{Floats}
use telemd.Host.{Host, Moment, next, child}
use telemd.Sysparse.Containers.{NetStats, container_process_ids, read_total_process_network_stats}
use telemd.Measure.{Put}
use telemd.Measure.Topics.{Begins, AllTopics}
use telemd.Measure.Networks.{
  device_puts, after_stats, read_stats, find_again, refresh, with_pid, container_turn,
  container_turns, folder_turns, measure_docker_cgroupv1_network, measure_docker_cgroupv2_network,
}

module _ (F : Floats) (P : Text → Type 0) where
  -- The puts of a turn that does not panic, beside what else it leaves.
  pub TurnTopics {ℓ} : {A : Type ℓ} → Option (A × List (Put F)) → Type 0
  TurnTopics none = Unit
  TurnTopics (some t) = AllTopics F P t.1

  pub TurnTopics-AllTopics {ℓ} :
      {A : Type ℓ} {o : Option (A × List (Put F))} {t : A × List (Put F)}
      → o ≡ some t
      → TurnTopics o
      → AllTopics F P t.1
  unfolding TurnTopics
  TurnTopics-AllTopics e h = subst TurnTopics e h

  pub some-TurnTopics {ℓ} :
      {A : Type ℓ} (a : A) (puts : List (Put F)) → AllTopics F P puts → TurnTopics (some (a, puts))
  unfolding TurnTopics
  some-TurnTopics a puts h = h

  pub bind-TurnTopics {ℓ κ} :
      {A : Type ℓ} {B : Type κ} (o : Option (A × List (Put F)))
      (f : A × List (Put F) → Option (B × List (Put F)))
      → TurnTopics o
      → ((t : A × List (Put F)) → AllTopics F P t.1 → TurnTopics (f t))
      → TurnTopics (o >>= f)
  unfolding TurnTopics
  bind-TurnTopics none f h k = tt
  bind-TurnTopics (some t) f h k = k t h

  pub read-TurnTopics {ℓ κ} :
      {A : Type ℓ} {B : Type κ} (o : Option A) (f : A → Option (B × List (Put F)))
      → ((a : A) → TurnTopics (f a))
      → TurnTopics (o >>= f)
  unfolding TurnTopics
  read-TurnTopics none f k = tt
  read-TurnTopics (some a) f k = k a

  -- One turn, and the turns behind it.
  pub chain-TurnTopics {ℓ} :
      {A : Type ℓ} (o : Option (A × List (Put F))) (f : A → Option (A × List (Put F)))
      → TurnTopics o
      → ((a : A) → TurnTopics (f a))
      → TurnTopics (o >>= λ turn. f turn.0 >>= λ rest. some (rest.0, turn.1 ++ rest.1))
  chain-TurnTopics o f h k = bind-TurnTopics o _ h λ turn ht.
      bind-TurnTopics (f turn.0) _ (k turn.0)
        λ rest hr. some-TurnTopics rest.0 _ (All-append (λ p. P p.0) turn.1 rest.1 ht hr)

module _ (F : Floats) (P : Text → Type 0) (kind : Text) (begins : Begins P kind) where
  longer : (a b : Text) → P ((kind ++ a) ++ b)
  longer a b = subst P (sym (append_assoc kind a b)) (begins (a ++ b))

  device_puts-AllTopics :
      (id : Text) (rx_values tx_values : Dict ℤ) (rx tx : ℤ)
      → AllTopics F P (device_puts F kind id rx_values tx_values rx tx)
  unfolding device_puts
  device_puts-AllTopics id [] tx_values rx tx = (begins id, tt)
  device_puts-AllTopics id ((device, irx) ∷ rest) tx_values rx tx = (
    begins (id ++ (b'/' ∷ device)),
    (
      longer (id ++ (b'/' ∷ device)) (codes "/rx"),
      (longer (id ++ (b'/' ∷ device)) (codes "/tx"), device_puts-AllTopics id rest tx_values _ _),
    ),
  )

  after_stats-AllTopics :
      (id : Text) (pids : Dict Text) (stats : WithErr NetStats)
      → AllTopics F P (after_stats F kind id pids stats).1
  unfolding after_stats
  after_stats-AllTopics id pids ((rx_values, tx_values), none) =
      device_puts-AllTopics id rx_values tx_values (pos 0) (pos 0)
  after_stats-AllTopics id pids (_, some not_exist) = tt
  after_stats-AllTopics id pids (_, some syntax) = tt
  after_stats-AllTopics id pids (_, some range) = tt
  after_stats-AllTopics id pids (_, some failure) = tt
  after_stats-AllTopics id pids (_, some (message t)) = tt

  module _ (H : Host) (proc_mount : Text) where
    pub read_stats-TurnTopics :
        (m : Moment) (id : Text) (pids : Dict Text) (pid : Text)
        → TurnTopics F P (read_stats F kind H proc_mount m id pids pid)
    unfolding read_stats
    read_stats-TurnTopics m id pids pid =
        read-TurnTopics F P (read_total_process_network_stats H m pid proc_mount) _
          λ stats. some-TurnTopics F P _ _ (after_stats-AllTopics id pids stats)

    pub find_again-TurnTopics :
        (m : Moment) (id : Text) (pids : Dict Text) (o : Option Text)
        → TurnTopics F P (find_again F kind H proc_mount m id pids o)
    unfolding find_again
    find_again-TurnTopics m id pids (some pid) = read_stats-TurnTopics m id pids pid
    find_again-TurnTopics m id pids none = some-TurnTopics F P pids [] tt

    found-TurnTopics :
        (m : Moment) (id : Text) (pids : Dict Text) (found : WithErr (Dict Text))
        → TurnTopics F P (elim found.1 [
          | some err ↦ some (pids, [])
          | none ↦ find_again F kind H proc_mount m id found.0 (Dict.lookup id found.0)
        ])
    found-TurnTopics m id pids (d, some err) = some-TurnTopics F P pids [] tt
    found-TurnTopics m id pids (d, none) = find_again-TurnTopics m id d (Dict.lookup id d)

    with_pid-TurnTopics :
        (m : Moment) (id : Text) (pids : Dict Text) (o : Option Text)
        → TurnTopics F P (with_pid F kind H proc_mount m id pids o)
    unfolding with_pid refresh
    with_pid-TurnTopics m id pids (some pid) = read_stats-TurnTopics (child 1 m) id pids pid
    with_pid-TurnTopics m id pids none =
        read-TurnTopics F P (container_process_ids H (child 0 m) proc_mount) _
          (found-TurnTopics (child 1 m) id pids)

    container_turn-TurnTopics :
        (m : Moment) (id : Text) (pids : Dict Text)
        → TurnTopics F P (container_turn F kind H proc_mount m id pids)
    unfolding container_turn
    container_turn-TurnTopics m id pids = with_pid-TurnTopics m id pids (Dict.lookup id pids)

    container_turns-TurnTopics :
        (m : Moment) (ids : List Text) (pids : Dict Text)
        → TurnTopics F P (container_turns F kind H proc_mount m ids pids)
    unfolding container_turns
    container_turns-TurnTopics m [] pids = some-TurnTopics F P pids [] tt
    container_turns-TurnTopics m (id ∷ ids) pids =
        chain-TurnTopics F P (container_turn F kind H proc_mount m id pids)
          (container_turns F kind H proc_mount (next m) ids) (container_turn-TurnTopics m id pids)
          (container_turns-TurnTopics (next m) ids)

    folder_turns-TurnTopics :
        (m : Moment) (folders : List Text) (pids : Dict Text)
        → TurnTopics F P (folder_turns F kind H proc_mount m folders pids)
    unfolding folder_turns
    folder_turns-TurnTopics m [] pids = some-TurnTopics F P pids [] tt
    folder_turns-TurnTopics m (folder ∷ folders) pids =
        read-TurnTopics F P (slice folder 7 (length folder - 6)) _ λ id.
          chain-TurnTopics F P (container_turn F kind H proc_mount m id pids)
            (folder_turns F kind H proc_mount (next m) folders)
            (container_turn-TurnTopics m id pids) (folder_turns-TurnTopics (next m) folders)

module _ (F : Floats) (P : Text → Type 0) (H : Host) (proc_mount : Text)
    (begins : Begins P (codes "docker_cgrp_net/")) (m : Moment) (pids : Dict Text) where
  pub measure_docker_cgroupv1_network-TurnTopics :
      TurnTopics F P (measure_docker_cgroupv1_network F H proc_mount m pids)
  unfolding measure_docker_cgroupv1_network
  measure_docker_cgroupv1_network-TurnTopics =
      container_turns-TurnTopics F P (codes "docker_cgrp_net/") begins H proc_mount (next m) _ pids

  pub measure_docker_cgroupv2_network-TurnTopics :
      TurnTopics F P (measure_docker_cgroupv2_network F H proc_mount m pids)
  unfolding measure_docker_cgroupv2_network
  measure_docker_cgroupv2_network-TurnTopics =
      folder_turns-TurnTopics F P (codes "docker_cgrp_net/") begins H proc_mount (next m) _ pids
