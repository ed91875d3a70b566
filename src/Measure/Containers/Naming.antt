-- ===== src/Measure/Containers/Naming.antt =====
-- Under which topics the docker instruments report, and when a name is too short for them.
use telemd.Base.{
  Bool, false, ◌||◌, Option, none, some, List, [], ◌∷◌, ◌++◌, Text, codes, ◌>>=◌, ◌≡◌, refl, length,
  ltb, take, map, if◌then◌else◌, arith,
}
use telemd.Base.Int.{ℤ}
use telemd.Go.Strconv.{WithErr}
use telemd.Go.Strings.{slice}
use telemd.Go.Float.{Floats}
use telemd.Host.{Host, Moment, next}
use telemd.Measure.{Put, put_each}
use telemd.Measure.Cgroups.{read_cgroup_cpu, docker_dirs}
use telemd.Measure.Containers.{put_value, short_id, measure_docker_cgroupv1_cpu}

-- The names whose values could be read, with these values.
pub keep_good : Text → WithErr ℤ → List (Text × ℤ) → List (Text × ℤ)
keep_good id (v, none) rs = (id, v) ∷ rs
keep_good id (v, some err) rs = rs

pub readings : (Moment → Text → WithErr ℤ) → Moment → List Text → List (Text × ℤ)
unfolding keep_good
readings read m [] = []
readings read m (id ∷ ids) = keep_good id (read m id) (readings read (next m) ids)

pub any_short : List (Text × ℤ) → Bool
any_short [] = false
any_short ((id, _) ∷ rs) = ltb (length id) 12 || any_short rs

module _ (F : Floats) where
  abbrev pub short_topic : Text → Text × ℤ → Put F
  short_topic kind (id, v) = (kind ++ take 12 id, F.of_int v)

  abbrev pub short_puts : Text → List (Text × ℤ) → Option (List (Put F))
  short_puts kind rs = if any_short rs then none else some (map (short_topic kind) rs)

  put_value-keep_good :
      (kind id : Text) (r : WithErr ℤ) (rs : List (Text × ℤ))
      → (put_value F kind (short_id id) r >>= λ puts.
          short_puts kind rs >>= λ rest. some (puts ++ rest))
        ≡ short_puts kind (keep_good id r rs)
  unfolding put_value keep_good any_short slice
  put_value-keep_good kind id (v, none) rs = ground arith
  put_value-keep_good kind id (v, some err) rs = ground arith

  put_each-readings :
      (kind : Text) (read : Moment → Text → WithErr ℤ) (m : Moment) (ids : List Text)
      → put_each F (λ n id. put_value F kind (short_id id) (read n id)) m ids
        ≡ short_puts kind (readings read m ids)
  unfolding put_each readings any_short
  put_each-readings kind read m [] = refl
  put_each-readings kind read m (id ∷ ids) =
      rw (put_each-readings kind read (next m) ids)
        (put_value-keep_good kind id (read m id) (readings read (next m) ids))

  -- In the first version of cgroups, the instrument of docker's cpu times puts each value that it
  -- could read under the first twelve bytes of its directory's name, in the directory's order; but
  -- it panics if the name of a directory whose value it could read is shorter than that.
  pub measure_docker_cgroupv1_cpu-readings :
      (H : Host) (m : Moment)
      → let dir : Text = codes "/sys/fs/cgroup/cpuacct/docker" in
        let rs : List (Text × ℤ) =
          readings
            (λ n id. read_cgroup_cpu H n (dir ++ (b'/' ∷ id)))
            (next m)
            (docker_dirs H m dir) in
        measure_docker_cgroupv1_cpu F H m
        ≡ (if any_short rs then none else some (map (short_topic (codes "docker_cgrp_cpu/")) rs))
  unfolding measure_docker_cgroupv1_cpu
  measure_docker_cgroupv1_cpu-readings H m =
      let dir : Text = codes "/sys/fs/cgroup/cpuacct/docker" in
      put_each-readings (codes "docker_cgrp_cpu/")
        (λ n id. read_cgroup_cpu H n (dir ++ (b'/' ∷ id))) (next m) (docker_dirs H m dir)
