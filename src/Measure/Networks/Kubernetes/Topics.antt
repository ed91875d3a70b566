-- ===== src/Measure/Networks/Kubernetes/Topics.antt =====
-- The topics of the network instruments of kubernetes.
use telemd.Base.{Option, none, some, List, [], ◌∷◌, Text, codes}
use telemd.Base.Dict.{Dict}
use telemd.Base.Dict
use telemd.Go.Strconv.{WithErr}
use telemd.Go.Float.{Floats}
use telemd.Host.{Host, Moment, next, child}
use telemd.Sysparse.Containers.{container_process_ids}
use telemd.Measure.Topics.{Begins}
use telemd.Measure.Networks.{read_stats, find_again}
use telemd.Measure.Networks.Topics.{
  TurnTopics, some-TurnTopics, bind-TurnTopics, read-TurnTopics, chain-TurnTopics,
  read_stats-TurnTopics, find_again-TurnTopics,
}
use telemd.Measure.Networks.Kubernetes.{
  Copy, pids_of, kubernetes_kind, kubernetes_refresh, kubernetes_with_pid, kubernetes_turn,
  kubernetes_turns, measure_kubernetes_cgroupv1_network, measure_kubernetes_cgroupv2_network,
}

module _ (F : Floats) (P : Text → Type 0) (begins : Begins P (codes "kubernetes_cgrp_net/"))
    (H : Host) (proc_mount : Text) where
  kubernetes_refresh-TurnTopics :
      (m : Moment) (id : Text) (c : Copy) (found : WithErr (Dict Text))
      → TurnTopics F P (kubernetes_refresh F H proc_mount m id c found)
  unfolding kubernetes_refresh
  kubernetes_refresh-TurnTopics m id c (found, some err) = some-TurnTopics F P c [] tt
  kubernetes_refresh-TurnTopics m id c (found, none) =
      bind-TurnTopics F P
        (find_again F kubernetes_kind H proc_mount m id found (Dict.lookup id found)) _
        (find_again-TurnTopics F P kubernetes_kind begins H proc_mount m id found _)
        λ turn h. some-TurnTopics F P _ turn.1 h

  kubernetes_with_pid-TurnTopics :
      (m : Moment) (id : Text) (c : Copy) (o : Option Text)
      → TurnTopics F P (kubernetes_with_pid F H proc_mount m id c o)
  unfolding kubernetes_with_pid
  kubernetes_with_pid-TurnTopics m id c (some pid) =
      bind-TurnTopics F P
        (read_stats F kubernetes_kind H proc_mount (child 1 m) id (pids_of c.stored c.own) pid) _
        (read_stats-TurnTopics F P kubernetes_kind begins H proc_mount (child 1 m) id _ pid)
        λ turn h. some-TurnTopics F P _ turn.1 h
  kubernetes_with_pid-TurnTopics m id c none =
      read-TurnTopics F P (container_process_ids H (child 0 m) proc_mount) _
        (kubernetes_refresh-TurnTopics (child 1 m) id c)

  kubernetes_turns-TurnTopics :
      (m : Moment) (ids : List Text) (c : Copy)
      → TurnTopics F P (kubernetes_turns F H proc_mount m ids c)
  unfolding kubernetes_turns kubernetes_turn
  kubernetes_turns-TurnTopics m [] c = some-TurnTopics F P c [] tt
  kubernetes_turns-TurnTopics m (id ∷ ids) c =
      chain-TurnTopics F P (kubernetes_turn F H proc_mount m id c)
        (kubernetes_turns F H proc_mount (next m) ids)
        (kubernetes_with_pid-TurnTopics m id c (Dict.lookup id (pids_of c.stored c.own)))
        (kubernetes_turns-TurnTopics (next m) ids)

  pub measure_kubernetes_cgroupv1_network-TurnTopics :
      (m : Moment) (order : List Text → List Text) (pids : Dict Text)
      → TurnTopics F P (measure_kubernetes_cgroupv1_network F H proc_mount m order pids)
  unfolding measure_kubernetes_cgroupv1_network
  measure_kubernetes_cgroupv1_network-TurnTopics m order pids =
      kubernetes_turns-TurnTopics (next m) _ (record { stored = pids; own = none })

  pub measure_kubernetes_cgroupv2_network-TurnTopics :
      (m : Moment) (order : List Text → List Text) (pids : Dict Text)
      → TurnTopics F P (measure_kubernetes_cgroupv2_network F H proc_mount m order pids)
  unfolding measure_kubernetes_cgroupv2_network
  measure_kubernetes_cgroupv2_network-TurnTopics m order pids =
      kubernetes_turns-TurnTopics (next m) _ (record { stored = pids; own = none })
