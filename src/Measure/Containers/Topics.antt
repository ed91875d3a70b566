-- ===== src/Measure/Containers/Topics.antt =====
-- The topics of the instruments of containers for the cpu times, the block I/O and the memory.
use telemd.Base.{Option, none, some, List, ◌∷◌, ◌++◌, Text, codes}
use telemd.Base.Int.{ℤ}
use telemd.Go.Strconv.{WithErr}
use telemd.Go.Float.{Floats}
use telemd.Host.{Host, Moment}
use telemd.Measure.Cgroups.{read_cgroup_blkio}
use telemd.Measure.Containers.{
  put_value, short_id_of_folder, system_slice, docker_cgroupv2, kubernetes_cgroup,
  measure_docker_cgroupv1_cpu, measure_docker_cgroupv2_cpu, measure_docker_cgroupv1_blkio,
  measure_docker_cgroupv2_blkio, measure_docker_cgroupv1_memory, measure_docker_cgroupv2_memory,
  measure_kubernetes_cgroupv1_cpu, measure_kubernetes_cgroupv2_cpu,
  measure_kubernetes_cgroupv1_blkio, measure_kubernetes_cgroupv2_blkio,
  measure_kubernetes_cgroupv1_memory, measure_kubernetes_cgroupv2_memory,
}
use telemd.Measure.Topics.{Begins, Topics, some-Topics, none-Topics, bind-Topics, put_each-Topics}

module _ (F : Floats) (P : Text → Type 0) where
  put_value-Topics :
      (kind : Text) (id : Option Text) (r : WithErr ℤ)
      → Begins P kind
      → Topics F P (put_value F kind id r)
  unfolding put_value
  put_value-Topics kind none (v, none) h = none-Topics F P
  put_value-Topics kind (some id) (v, none) h = some-Topics F P _ (h id, tt)
  put_value-Topics kind id (v, some err) h = some-Topics F P _ tt

module _ (F : Floats) (P : Text → Type 0) (H : Host) (m : Moment) where
  docker_cgroupv2-Topics :
      (read : Moment → Text → Option (WithErr ℤ)) (kind : Text)
      → Begins P kind
      → Topics F P (docker_cgroupv2 F H m read kind)
  unfolding docker_cgroupv2
  docker_cgroupv2-Topics read kind h =
      put_each-Topics F P _
        (λ n folder. bind-Topics F P (short_id_of_folder folder) _ λ id.
          bind-Topics F P (read n (system_slice ++ (b'/' ∷ folder))) _
            λ value. put_value-Topics F P kind (some id) value h)
        _ _

  kubernetes_cgroup-Topics :
      (read : Moment → Text → Option (WithErr ℤ)) (kind : Text) (id : Text → Text)
      (classes : List Text)
      → Begins P kind
      → Topics F P (kubernetes_cgroup F H m read kind id classes)
  unfolding kubernetes_cgroup
  kubernetes_cgroup-Topics read kind id classes h =
      put_each-Topics F P _
        (λ n dir.
          bind-Topics F P (read n dir) _ λ value. put_value-Topics F P kind (some (id dir)) value h)
        _ _

  pub measure_docker_cgroupv1_cpu-Topics :
      Begins P (codes "docker_cgrp_cpu/") → Topics F P (measure_docker_cgroupv1_cpu F H m)
  unfolding measure_docker_cgroupv1_cpu
  measure_docker_cgroupv1_cpu-Topics h =
      put_each-Topics F P _ (λ n id. put_value-Topics F P _ _ _ h) _ _

  pub measure_docker_cgroupv1_memory-Topics :
      Begins P (codes "docker_cgrp_memory/") → Topics F P (measure_docker_cgroupv1_memory F H m)
  unfolding measure_docker_cgroupv1_memory
  measure_docker_cgroupv1_memory-Topics h =
      put_each-Topics F P _ (λ n id. put_value-Topics F P _ _ _ h) _ _

  pub measure_docker_cgroupv1_blkio-Topics :
      Begins P (codes "docker_cgrp_blkio/") → Topics F P (measure_docker_cgroupv1_blkio F H m)
  unfolding measure_docker_cgroupv1_blkio
  measure_docker_cgroupv1_blkio-Topics h =
      put_each-Topics F P _
        (λ n id.
          bind-Topics F P
            (read_cgroup_blkio H n (codes "/sys/fs/cgroup/blkio/docker" ++ (b'/' ∷ id))) _
            λ value. put_value-Topics F P _ _ value h)
        _ _

  pub measure_docker_cgroupv2_cpu-Topics :
      Begins P (codes "docker_cgrp_cpu/") → Topics F P (measure_docker_cgroupv2_cpu F H m)
  unfolding measure_docker_cgroupv2_cpu
  measure_docker_cgroupv2_cpu-Topics h = docker_cgroupv2-Topics _ _ h

  pub measure_docker_cgroupv2_blkio-Topics :
      Begins P (codes "docker_cgrp_blkio/") → Topics F P (measure_docker_cgroupv2_blkio F H m)
  unfolding measure_docker_cgroupv2_blkio
  measure_docker_cgroupv2_blkio-Topics h = docker_cgroupv2-Topics _ _ h

  pub measure_docker_cgroupv2_memory-Topics :
      Begins P (codes "docker_cgrp_memory/") → Topics F P (measure_docker_cgroupv2_memory F H m)
  unfolding measure_docker_cgroupv2_memory
  measure_docker_cgroupv2_memory-Topics h = docker_cgroupv2-Topics _ _ h

  pub measure_kubernetes_cgroupv1_cpu-Topics :
      Begins P (codes "kubernetes_cgrp_cpu/") → Topics F P (measure_kubernetes_cgroupv1_cpu F H m)
  unfolding measure_kubernetes_cgroupv1_cpu
  measure_kubernetes_cgroupv1_cpu-Topics h = kubernetes_cgroup-Topics _ _ _ _ h

  pub measure_kubernetes_cgroupv2_cpu-Topics :
      Begins P (codes "kubernetes_cgrp_cpu/") → Topics F P (measure_kubernetes_cgroupv2_cpu F H m)
  unfolding measure_kubernetes_cgroupv2_cpu
  measure_kubernetes_cgroupv2_cpu-Topics h = kubernetes_cgroup-Topics _ _ _ _ h

  pub measure_kubernetes_cgroupv1_blkio-Topics :
      Begins P (codes "kubernetes_cgrp_blkio/")
      → Topics F P (measure_kubernetes_cgroupv1_blkio F H m)
  unfolding measure_kubernetes_cgroupv1_blkio
  measure_kubernetes_cgroupv1_blkio-Topics h = kubernetes_cgroup-Topics _ _ _ _ h

  pub measure_kubernetes_cgroupv2_blkio-Topics :
      Begins P (codes "kubernetes_cgrp_blkio/")
      → Topics F P (measure_kubernetes_cgroupv2_blkio F H m)
  unfolding measure_kubernetes_cgroupv2_blkio
  measure_kubernetes_cgroupv2_blkio-Topics h = kubernetes_cgroup-Topics _ _ _ _ h

  pub measure_kubernetes_cgroupv1_memory-Topics :
      Begins P (codes "kubernetes_cgrp_memory/")
      → Topics F P (measure_kubernetes_cgroupv1_memory F H m)
  unfolding measure_kubernetes_cgroupv1_memory
  measure_kubernetes_cgroupv1_memory-Topics h = kubernetes_cgroup-Topics _ _ _ _ h

  pub measure_kubernetes_cgroupv2_memory-Topics :
      Begins P (codes "kubernetes_cgrp_memory/")
      → Topics F P (measure_kubernetes_cgroupv2_memory F H m)
  unfolding measure_kubernetes_cgroupv2_memory
  measure_kubernetes_cgroupv2_memory-Topics h = kubernetes_cgroup-Topics _ _ _ _ h
