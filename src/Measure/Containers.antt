-- ===== src/Measure/Containers.antt =====
-- internal/telemd/instrument.go: `MeasureAndReport` of the cpu, block I/O and memory instruments of
-- docker and kubernetes, in both versions of cgroups.
pub mod Naming
pub mod Topics
use telemd.Base.{ℕ, Option, none, some, List, [], ◌∷◌, ◌++◌, Text, codes, ◌>>=◌}
use telemd.Base.Int.{ℤ}
use telemd.Go.Strconv.{WithErr}
use telemd.Go.Strings.{split, slice}
use telemd.Go.Float.{Floats}
use telemd.Host.{Host, Moment, next}
use telemd.Sysparse.Containers.{find_container_id}
use telemd.Measure.{Put, put_each}
use telemd.Measure.Cgroups.{
  read_cgroup_cpu, read_cgroupv2_cpu, read_cgroup_blkio, read_cgroupv2_blkio, read_cgroup_memory,
  read_cgroupv2_memory, docker_dirs, list_cgroupv2_folders, fetch_kubernetes_container_dirs,
}

-- `filepath.Base` of a path that does not end in a slash: the last part.
last_part : List Text → Text
last_part [] = []
last_part (p ∷ []) = p
last_part (p ∷ q ∷ ps) = last_part (q ∷ ps)

unfoldable pub base_name : Text → Text
unfolding last_part
base_name path = last_part (split path b'/')

-- `containerId[:12]`, the short form of an id.
abbrev pub short_id : Text → Option Text
short_id id = slice id 0 12

-- `containerIdFolder[index : index+12]` behind "docker-".
abbrev pub short_id_of_folder : Text → Option Text
short_id_of_folder folder = slice folder 7 19

abbrev pub system_slice : Text
system_slice = codes "/sys/fs/cgroup/system.slice"

module _ (F : Floats) where
  -- Put a value that was read; its topic is made only then.
  unfoldable pub put_value : Text → Option Text → WithErr ℤ → Option (List (Put F))
  put_value kind id (v, none) = do some ((kind ++ (← id), F.of_int v) ∷ [])
  put_value kind id (v, some err) = some []

module _ (F : Floats) (H : Host) (m : Moment) where
  unfoldable pub measure_docker_cgroupv1_cpu : Option (List (Put F))
  measure_docker_cgroupv1_cpu =
      let dir = codes "/sys/fs/cgroup/cpuacct/docker" in
      put_each F
        (λ n id.
          put_value F (codes "docker_cgrp_cpu/") (short_id id)
            (read_cgroup_cpu H n (dir ++ (b'/' ∷ id))))
        (next m) (docker_dirs H m dir)

  pub measure_docker_cgroupv1_blkio : Option (List (Put F))
  measure_docker_cgroupv1_blkio =
      let dir = codes "/sys/fs/cgroup/blkio/docker" in
      put_each F
        (λ n id.
          read_cgroup_blkio H n (dir ++ (b'/' ∷ id))
          >>= put_value F (codes "docker_cgrp_blkio/") (short_id id))
        (next m) (docker_dirs H m dir)

  pub measure_docker_cgroupv1_memory : Option (List (Put F))
  measure_docker_cgroupv1_memory =
      let dir = codes "/sys/fs/cgroup/memory/docker" in
      put_each F
        (λ n id.
          put_value F (codes "docker_cgrp_memory/") (some id)
            (read_cgroup_memory H n (dir ++ (b'/' ∷ id))))
        (next m) (docker_dirs H m dir)

  -- The loop of the three instruments for the second version; the short id is made first.
  pub docker_cgroupv2 : (Moment → Text → Option (WithErr ℤ)) → Text → Option (List (Put F))
  docker_cgroupv2 read kind =
      put_each F
        (λ n folder. do
          id ← short_id_of_folder folder
          value ← read n (system_slice ++ (b'/' ∷ folder))
          put_value F kind (some id) value)
        (next m) (list_cgroupv2_folders H m (codes "docker-") system_slice)

  pub measure_docker_cgroupv2_cpu : Option (List (Put F))
  measure_docker_cgroupv2_cpu = docker_cgroupv2 (read_cgroupv2_cpu H) (codes "docker_cgrp_cpu/")

  pub measure_docker_cgroupv2_blkio : Option (List (Put F))
  measure_docker_cgroupv2_blkio =
      docker_cgroupv2 (read_cgroupv2_blkio H) (codes "docker_cgrp_blkio/")

  pub measure_docker_cgroupv2_memory : Option (List (Put F))
  measure_docker_cgroupv2_memory =
      docker_cgroupv2 (λ n folder. some (read_cgroupv2_memory H n folder))
        (codes "docker_cgrp_memory/")

  -- The containers of the three classes of pods.
  unfoldable pub kubernetes_dirs : Moment → List Text → List Text
  kubernetes_dirs n [] = []
  kubernetes_dirs n (dir ∷ dirs) =
      fetch_kubernetes_container_dirs H n dir ++ kubernetes_dirs (next n) dirs

  abbrev pub v1_classes : Text → List Text
  v1_classes root =
      (root ++ codes "/besteffort")
      ∷ (root ++ codes "/burstable")
      ∷ (root ++ codes "/guaranteed")
      ∷ []

  abbrev pub v2_classes : List Text
  v2_classes =
      codes "/sys/fs/cgroup/kubepods.slice/kubepods-besteffort.slice"
      ∷ codes "/sys/fs/cgroup/kubepods.slice/kubepods-burstable.slice"
      ∷ codes "/sys/fs/cgroup/kubepods.slice/kubepods-guaranteed.slice"
      ∷ []

  -- The loop of the six kubernetes instruments over the containers' directories.
  pub kubernetes_cgroup :
      (Moment → Text → Option (WithErr ℤ))
      → Text
      → (Text → Text)
      → List Text
      → Option (List (Put F))
  unfolding kubernetes_dirs
  kubernetes_cgroup read kind id classes =
      put_each F (λ n dir. read n dir >>= put_value F kind (some (id dir))) (next m)
        (kubernetes_dirs m classes)

  pub measure_kubernetes_cgroupv1_cpu : Option (List (Put F))
  measure_kubernetes_cgroupv1_cpu =
      kubernetes_cgroup (λ n dir. some (read_cgroup_cpu H n dir)) (codes "kubernetes_cgrp_cpu/")
        base_name (v1_classes (codes "/sys/fs/cgroup/cpuacct/kubepods"))

  pub measure_kubernetes_cgroupv2_cpu : Option (List (Put F))
  measure_kubernetes_cgroupv2_cpu =
      kubernetes_cgroup (read_cgroupv2_cpu H) (codes "kubernetes_cgrp_cpu/") find_container_id
        v2_classes

  pub measure_kubernetes_cgroupv1_blkio : Option (List (Put F))
  measure_kubernetes_cgroupv1_blkio =
      kubernetes_cgroup (read_cgroup_blkio H) (codes "kubernetes_cgrp_blkio/") base_name
        (v1_classes (codes "/sys/fs/cgroup/blkio/kubepods"))

  pub measure_kubernetes_cgroupv2_blkio : Option (List (Put F))
  measure_kubernetes_cgroupv2_blkio =
      kubernetes_cgroup (read_cgroupv2_blkio H) (codes "kubernetes_cgrp_blkio/") find_container_id
        v2_classes

  pub measure_kubernetes_cgroupv1_memory : Option (List (Put F))
  measure_kubernetes_cgroupv1_memory =
      kubernetes_cgroup (λ n dir. some (read_cgroup_memory H n dir))
        (codes "kubernetes_cgrp_memory/") base_name
        (v1_classes (codes "/sys/fs/cgroup/memory/kubepods"))

  pub measure_kubernetes_cgroupv2_memory : Option (List (Put F))
  measure_kubernetes_cgroupv2_memory =
      kubernetes_cgroup (λ n dir. some (read_cgroupv2_memory H n dir))
        (codes "kubernetes_cgrp_memory/") find_container_id v2_classes
