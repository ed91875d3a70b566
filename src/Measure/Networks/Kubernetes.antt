-- ===== src/Measure/Networks/Kubernetes.antt =====
-- internal/telemd/instrument.go: the network instruments of kubernetes. Their methods have a value
-- as receiver: a call works on a copy of the struct whose map is at first the instrument's own.
-- The goroutines of a call share the copy; here the turns of the containers follow one another in
-- an order that is an argument, and what Go does when two of them meet at the map is left out.
pub mod Topics
use mathlib.Core.Path.{subst}
use telemd.Base.{
  ◌≡◌, refl, ◌⊎◌, inl, inr, Option, none, some, List, [], ◌∷◌, ◌++◌, Text, codes, ◌>>=◌, arith,
  >>=-eq-some, some-inj, map,
}
use telemd.Base.Dict.{Dict}
use telemd.Base.Dict
use telemd.Go.Strconv.{not_exist, WithErr}
use telemd.Go.Float.{Floats}
use telemd.Host.{Host, Moment, next, child}
use telemd.Sysparse.Containers.{
  NetStats, container_process_ids, find_container_id, read_total_process_network_stats,
}
use telemd.Measure.{Put}
use telemd.Measure.Containers.{base_name, kubernetes_dirs, v1_classes, v2_classes}
use telemd.Measure.Networks.{Turn, after_stats, read_stats, find_again}

-- The map of the instrument, and that of the copy once it has been replaced.
pub record Copy : Type 0 where
  pub stored : Dict Text
  pub own : Option (Dict Text)

-- `c.pids`
abbrev pub pids_of : Dict Text → Option (Dict Text) → Dict Text
pids_of stored none = stored
pids_of stored (some d) = d

-- The map that `c.pids` names has changed in place.
pub change : Dict Text → Dict Text → Option (Dict Text) → Copy
change d stored none = record { stored = d; own = none }
change d stored (some _) = record { stored = stored; own = some d }

abbrev pub kubernetes_kind : Text
kubernetes_kind = codes "kubernetes_cgrp_net/"

module _ (F : Floats) (H : Host) (proc_mount : Text) where
  -- The block that refreshes the processes: `c.pids = pids` replaces the map of the copy.
  pub kubernetes_refresh : Moment → Text → Copy → WithErr (Dict Text) → Option (Copy × List (Put F))
  kubernetes_refresh m id c (_, some err) = some (c, [])
  kubernetes_refresh m id c (found, none) = do
    turn ← find_again F kubernetes_kind H proc_mount m id found (Dict.lookup id found)
    some (record c { own = some turn.0 }, turn.1)

  pub kubernetes_with_pid : Moment → Text → Copy → Option Text → Option (Copy × List (Put F))
  unfolding kubernetes_refresh change
  kubernetes_with_pid m id c (some pid) = do
    turn ← read_stats F kubernetes_kind H proc_mount (child 1 m) id (pids_of c.stored c.own) pid
    some (change turn.0 c.stored c.own, turn.1)
  kubernetes_with_pid m id c none =
      container_process_ids H (child 0 m) proc_mount >>= kubernetes_refresh (child 1 m) id c

  -- The body of the loop, or of the goroutine, for one container.
  pub kubernetes_turn : Moment → Text → Copy → Option (Copy × List (Put F))
  unfolding kubernetes_with_pid
  kubernetes_turn m id c = kubernetes_with_pid m id c (Dict.lookup id (pids_of c.stored c.own))

  pub kubernetes_turns : Moment → List Text → Copy → Option (Copy × List (Put F))
  unfolding kubernetes_turn
  kubernetes_turns m [] c = some (c, [])
  kubernetes_turns m (id ∷ ids) c = do
    turn ← kubernetes_turn m id c
    rest ← kubernetes_turns (next m) ids turn.0
    some (rest.0, turn.1 ++ rest.1)

  -- The order is that of the three goroutines' turns.
  unfoldable pub measure_kubernetes_cgroupv1_network :
      Moment → (List Text → List Text) → Dict Text → Option (Copy × List (Put F))
  unfolding kubernetes_turns
  measure_kubernetes_cgroupv1_network m order pids =
      kubernetes_turns (next m)
        (map base_name (
          order
            (kubernetes_dirs F H m m (v1_classes F H m (codes "/sys/fs/cgroup/cpuacct/kubepods")))))
        (record { stored = pids; own = none })

  -- The order is that of the turns of the goroutines, one for each container.
  pub measure_kubernetes_cgroupv2_network :
      Moment → (List Text → List Text) → Dict Text → Option (Copy × List (Put F))
  unfolding kubernetes_turns
  measure_kubernetes_cgroupv2_network m order pids =
      kubernetes_turns (next m)
        (map find_container_id (order (kubernetes_dirs F H m m (v2_classes F H m))))
        (record { stored = pids; own = none })

-- A map that has lost entries at most.
abbrev pub Forgets : Dict Text → Dict Text → Type 0
Forgets d d' = (k : Text) → (Dict.lookup k d' ≡ Dict.lookup k d) ⊎ (Dict.lookup k d' ≡ none)

Forgets-refl : (d : Dict Text) → Forgets d d
Forgets-refl d k = inl refl

Forgets-trans : (d e f : Dict Text) → Forgets d e → Forgets e f → Forgets d f
Forgets-trans d e f h k key = ground (arith, h key, k key)

Forgets-erase : (id : Text) (d : Dict Text) → Forgets d (Dict.erase id d)
Forgets-erase id d k = ground (arith, Dict.lookup-erase id k d)

module _ (F : Floats) (H : Host) (proc_mount : Text) where
  after_stats-Forgets :
      (id : Text) (pids : Dict Text) (stats : WithErr NetStats)
      → Forgets pids (after_stats F kubernetes_kind id pids stats).0
  unfolding after_stats
  after_stats-Forgets id pids (s, none) = Forgets-refl pids
  after_stats-Forgets id pids (s, some not_exist) = Forgets-erase id pids
  after_stats-Forgets id pids (s, some err) = Forgets-refl pids

  read_stats-Forgets :
      (m : Moment) (id pid : Text) (pids : Dict Text) {turn : Turn F}
      → read_stats F kubernetes_kind H proc_mount m id pids pid ≡ some turn
      → Forgets pids turn.0
  unfolding read_stats
  read_stats-Forgets m id pid pids h =
      let (stats, e, e') = >>=-eq-some (read_total_process_network_stats H m pid proc_mount) _ h in
      subst (λ t. Forgets pids t.0) (some-inj e') (after_stats-Forgets id pids stats)

  change-Forgets :
      (d stored : Dict Text) (own : Option (Dict Text))
      → Forgets (pids_of stored own) d
      → Forgets stored (change d stored own).stored
  unfolding change
  change-Forgets d stored none h = h
  change-Forgets d stored (some e) h = Forgets-refl stored

  refresh-Forgets :
      (m : Moment) (id : Text) (c : Copy) (found : WithErr (Dict Text)) {r : Copy × List (Put F)}
      → kubernetes_refresh F H proc_mount m id c found ≡ some r
      → Forgets c.stored r.0.stored
  unfolding kubernetes_refresh
  refresh-Forgets m id c (found, some err) h =
      subst (λ r. Forgets c.stored r.0.stored) (some-inj h) (Forgets-refl c.stored)
  refresh-Forgets m id c (found, none) h =
      let (turn, e, e') =
        >>=-eq-some (find_again F kubernetes_kind H proc_mount m id found (Dict.lookup id found)) _
          h in
      subst (λ r. Forgets c.stored r.0.stored) (some-inj e') (Forgets-refl c.stored)

  with_pid-Forgets :
      (m : Moment) (id : Text) (c : Copy) (pid : Option Text) {r : Copy × List (Put F)}
      → kubernetes_with_pid F H proc_mount m id c pid ≡ some r
      → Forgets c.stored r.0.stored
  unfolding kubernetes_with_pid
  with_pid-Forgets m id c (some pid) h =
      let (turn, e, e') =
        >>=-eq-some
          (read_stats F kubernetes_kind H proc_mount (child 1 m) id (pids_of c.stored c.own) pid) _
          h in
      subst (λ r. Forgets c.stored r.0.stored) (some-inj e')
        (change-Forgets turn.0 c.stored c.own
          (read_stats-Forgets (child 1 m) id pid (pids_of c.stored c.own) e))
  with_pid-Forgets m id c none h =
      let (found, e, e') = >>=-eq-some (container_process_ids H (child 0 m) proc_mount) _ h in
      refresh-Forgets (child 1 m) id c found e'

  turns-Forgets :
      (m : Moment) (ids : List Text) (c : Copy) {r : Copy × List (Put F)}
      → kubernetes_turns F H proc_mount m ids c ≡ some r
      → Forgets c.stored r.0.stored
  unfolding kubernetes_turns kubernetes_turn
  turns-Forgets m [] c h =
      subst (λ r. Forgets c.stored r.0.stored) (some-inj h) (Forgets-refl c.stored)
  turns-Forgets m (id ∷ ids) c h =
      let (turn, e, e') = >>=-eq-some (kubernetes_turn F H proc_mount m id c) _ h in
      let (rest, f, f') = >>=-eq-some (kubernetes_turns F H proc_mount (next m) ids turn.0) _ e' in
      subst (λ r. Forgets c.stored r.0.stored) (some-inj f')
        (Forgets-trans c.stored turn.0.stored rest.0.stored
          (with_pid-Forgets m id c (Dict.lookup id (pids_of c.stored c.own)) e)
          (turns-Forgets (next m) ids turn.0 f))

  -- Whatever the order in which the containers have their turns, a measurement of the network
  -- instrument of kubernetes, in either version, leaves the instrument's map with entries that it
  -- had before, at most: the processes that are looked up anew are kept in the call's copy only, so
  -- that a container without an entry never gets one.
  pub measure_kubernetes_network-Forgets :
      (m : Moment) (order : List Text → List Text) (pids : Dict Text) (r : Copy × List (Put F))
      → ((measure_kubernetes_cgroupv1_network F H proc_mount m order pids ≡ some r)
          ⊎ (measure_kubernetes_cgroupv2_network F H proc_mount m order pids ≡ some r))
      → Forgets pids r.0.stored
  unfolding measure_kubernetes_cgroupv1_network measure_kubernetes_cgroupv2_network
  measure_kubernetes_network-Forgets m order pids r (inl h) = turns-Forgets (next m) _ _ h
  measure_kubernetes_network-Forgets m order pids r (inr h) = turns-Forgets (next m) _ _ h
