-- ===== src/Daemon/Names.antt =====
-- The names under which a daemon keeps its instruments.
pub mod Kept
use mathlib.Core.Path.{subst}
use telemd.Base.{
  ◌≡◌, refl, sym, ap, ◌∙◌, Option, none, some, List, [], ◌∷◌, ◌++◌, Text, codes, All, Bool-cases,
  inl, inr, equal, equal-eq, if◌then◌else◌, >>=-eq-some, some-inj, leb, length, ◌>>=◌,
}
use telemd.Base.Dict.{Dict}
use telemd.Base.Dict
use telemd.Go.Strconv.{WithErr}
use telemd.Host.{Host, Moment, next, child}
use telemd.Fileio.{file_dir_exists}
use telemd.Sysparse.Containers.{container_process_ids}
use telemd.Cfg.{Config}
use telemd.Cfg.Devices.{find_active_net_device}
use telemd.Instrument.{
  Instrument, Cgroup, new_docker_cgroup_cpu, new_docker_cgroup_blkio, new_docker_cgroup_memory,
  new_kubernetes_cgroup_cpu, new_kubernetes_cgroup_blkio, new_kubernetes_cgroup_memory, v1, v2,
  by_cgroup, check_cgroup, new_docker_cgroup_network, new_kubernetes_cgroup_net,
}
use telemd.Measure.Dispatch.Names.{name_of}
use telemd.Daemon.{
  Daemon, base_instruments, add_wireless, remove_all, take_one, take_all, select, init_instruments,
  new_daemon,
}
use telemd.Daemon.Names.Kept.{IsNamed, lookup-IsNamed, insert-IsNamed, select-IsNamed}

name_of-by_cgroup :
    (c : Cgroup) (a b : Instrument) {k : Text}
    → name_of a ≡ k
    → name_of b ≡ k
    → name_of (by_cgroup c a b) ≡ k
name_of-by_cgroup v1 a b h g = h
name_of-by_cgroup v2 a b h g = g

-- The same of a map that may fail to be made.
AreNamed : Option (Dict Instrument) → Type 0
AreNamed none = Unit
AreNamed (some d) = IsNamed d

bind-AreNamed {ℓ} :
    {A : Type ℓ} (o : Option A) (f : A → Option (Dict Instrument))
    → ((a : A) → o ≡ some a → AreNamed (f a))
    → AreNamed (o >>= f)
unfolding AreNamed
bind-AreNamed none f h = tt
bind-AreNamed (some a) f h = h a refl

docker_net_name :
    (H : Host) (m : Moment) (proc_mount : Text) (i : Instrument)
    → new_docker_cgroup_network H m proc_mount ≡ some i
    → name_of i ≡ codes "docker_cgrp_net"
unfolding new_docker_cgroup_network name_of
docker_net_name H m proc_mount i e =
    let (pids, _, e') = >>=-eq-some (container_process_ids H m proc_mount) _ e in
    ap name_of (sym (some-inj e')) ∙ name_of-by_cgroup (check_cgroup H (next m)) _ _ refl refl

kubernetes_net_name :
    (H : Host) (m : Moment) (proc_mount : Text) (i : Instrument)
    → new_kubernetes_cgroup_net H m proc_mount ≡ some i
    → name_of i ≡ codes "kubernetes_cgrp_net"
unfolding new_kubernetes_cgroup_net name_of
kubernetes_net_name H m proc_mount i e =
    let (pids, _, e') = >>=-eq-some (container_process_ids H m proc_mount) _ e in
    ap name_of (sym (some-inj e')) ∙ name_of-by_cgroup (check_cgroup H (next m)) _ _ refl refl

base_instruments-AreNamed :
    (H : Host) (m : Moment) (cfg : Config) → AreNamed (base_instruments H m cfg)
unfolding base_instruments new_docker_cgroup_cpu new_docker_cgroup_blkio new_docker_cgroup_memory
    new_kubernetes_cgroup_cpu new_kubernetes_cgroup_blkio new_kubernetes_cgroup_memory name_of
    AreNamed
base_instruments-AreNamed H m cfg =
    bind-AreNamed (new_docker_cgroup_network H (child 0 m) cfg.proc_mount) _ λ i e.
      bind-AreNamed (new_kubernetes_cgroup_net H (child 1 m) cfg.proc_mount) _ λ j e'. (
        refl,
        (
          refl,
          (
            refl,
            (
              refl,
              (
                refl,
                (
                  refl,
                  (
                    refl,
                    (
                      refl,
                      (
                        refl,
                        (
                          refl,
                          (
                            name_of-by_cgroup (check_cgroup H (child 2 m)) _ _ refl refl,
                            (
                              name_of-by_cgroup (check_cgroup H (child 3 m)) _ _ refl refl,
                              (
                                docker_net_name H (child 0 m) cfg.proc_mount i e,
                                (
                                  name_of-by_cgroup (check_cgroup H (child 4 m)) _ _ refl refl,
                                  (
                                    name_of-by_cgroup (check_cgroup H (child 5 m)) _ _ refl refl,
                                    (
                                      name_of-by_cgroup (check_cgroup H (child 6 m)) _ _ refl refl,
                                      (
                                        name_of-by_cgroup (check_cgroup H (child 7 m)) _ _ refl
                                            refl,
                                        (kubernetes_net_name H (child 1 m) cfg.proc_mount j e', tt),
                                      ),
                                    ),
                                  ),
                                ),
                              ),
                            ),
                          ),
                        ),
                      ),
                    ),
                  ),
                ),
              ),
            ),
          ),
        ),
      )

add_wireless-IsNamed :
    (H : Host) (m : Moment) (d : Dict Instrument) → IsNamed d → IsNamed (add_wireless H m d)
unfolding add_wireless name_of
add_wireless-IsNamed H m d h = with_device (find_active_net_device H m)
  where
    with_device :
        (found : WithErr Text)
        → IsNamed (elim found.1 [
          | some e ↦ d
          | none ↦
              if file_dir_exists H
                (next m)
                (codes "/sys/class/net/" ++ (found.0 ++ codes "/wireless"))
              then Dict.insert (codes "signal") (Instrument.wifi_signal found.0) (
                  Dict.insert
                    (codes "rx_bitrate")
                    (Instrument.wifi_rx_bitrate found.0)
                    (Dict.insert (codes "tx_bitrate") (Instrument.wifi_tx_bitrate found.0) d))
              else d
        ])
    with_device (device, some e) = h
    with_device (device, none) =
        elim (Bool-cases
          (file_dir_exists H (next m) (codes "/sys/class/net/" ++ (device ++ codes "/wireless")))) [
            | inl there ↦ rw there (
                insert-IsNamed (codes "signal") (Instrument.wifi_signal device)
                  (Dict.insert (codes "rx_bitrate") (Instrument.wifi_rx_bitrate device)
                    (Dict.insert (codes "tx_bitrate") (Instrument.wifi_tx_bitrate device) d))
                  refl
                  (insert-IsNamed (codes "rx_bitrate") (Instrument.wifi_rx_bitrate device)
                    (Dict.insert (codes "tx_bitrate") (Instrument.wifi_tx_bitrate device) d) refl
                    (insert-IsNamed (codes "tx_bitrate") (Instrument.wifi_tx_bitrate device) d refl
                      h)))
            | inr absent ↦ rw absent h
          ]

init_instruments-AreNamed :
    (H : Host) (m : Moment) (cfg : Config) → AreNamed (init_instruments H m cfg)
unfolding init_instruments AreNamed
init_instruments-AreNamed H m cfg = bind-AreNamed (base_instruments H m cfg) _ λ d e.
    select-IsNamed cfg _
      (add_wireless-IsNamed H (child 8 m) d (subst AreNamed e (base_instruments-AreNamed H m cfg)))

instruments-IsNamed :
    (H : Host) (m : Moment) (cfg : Config) (d : Daemon)
    → new_daemon H m cfg ≡ some d
    → IsNamed d.instruments
unfolding new_daemon AreNamed
instruments-IsNamed H m cfg d e =
    let (instruments, e', e'') = >>=-eq-some (init_instruments H m cfg) _ e in
    subst (λ (d : Daemon). IsNamed d.instruments) (some-inj e'')
      (subst AreNamed e' (init_instruments-AreNamed H m cfg))

-- Whatever the configuration and the host, an instrument that a new daemon keeps stands under the
-- name of its own.
pub kept_name :
    (H : Host) (m : Moment) (cfg : Config) (d : Daemon) (k : Text) (i : Instrument)
    → new_daemon H m cfg ≡ some d
    → Dict.lookup k d.instruments ≡ some i
    → name_of i ≡ k
kept_name H m cfg d k i e = lookup-IsNamed k d.instruments i (instruments-IsNamed H m cfg d e)
