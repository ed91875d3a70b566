-- ===== src/Measure/Cgroups/Usage.antt =====
-- The cpu times of a container as the kernel writes them, in both versions of cgroups.
use telemd.Base.{
  ℕ, ◌*◌, ◌^◌, ◌<◌, ◌≡◌, refl, Option, some, none, List, [], ◌∷◌, ◌++◌, Text, codes, arith,
}
use telemd.Base.Int.{pos, wrap64, mul64, ◌*ℤ◌}
use telemd.Go.Strconv.{Err}
use telemd.Go.Strings.{split}
use telemd.Go.Split.{Lacks, split-append, split_lacking}
use telemd.Go.Decimal.{format, format-Lacks, parse_int-format}
use telemd.Host.{Host, Moment, scanned}
use telemd.Fileio.{read_line_and_parse_int}
use telemd.Fileio.Lines.{read_first_line_scanned}
use telemd.Measure.Cgroups.{read_cgroup_cpu, read_cgroupv2_cpu}

-- A name and a count with a blank between them.
split_entry :
    (name : Text) (n : ℕ)
    → Lacks b' ' name
    → split (name ++ (b' ' ∷ format n)) b' ' ≡ name ∷ format n ∷ []
split_entry name n h =
    rw
      (
        split-append b' ' name (format n) h,
        split_lacking b' ' (format n) (format-Lacks b' ' n (omega arith)),
      )
      refl

thousandfold : (n : ℕ) → mul64 (pos n) (pos 1000) ≡ wrap64 (pos (n * 1000))
unfolding mul64 ◌*ℤ◌
thousandfold n = let e : (pos n *ℤ pos 1000) ≡ pos (n * 1000) = ground arith in rw e refl

module _ (H : Host) where
  cpu_of_v1 :
      (m : Moment) (folder : Text) (n : ℕ) (rest : List Text) (err : Option Err)
      → n < 2 ^ 63
      → H.read_file m (folder ++ codes "/cpuacct.usage") ≡ scanned (format n ∷ rest) err
      → read_cgroup_cpu H m folder ≡ (pos n, none)
  unfolding read_cgroup_cpu read_line_and_parse_int
  cpu_of_v1 m folder n rest err h e =
      let line =
        read_first_line_scanned H m (folder ++ codes "/cpuacct.usage") (format n) rest err e in
      rw (read_cgroup_cpu, read_line_and_parse_int, line, line, parse_int-format n h) refl

  cpu_of_v2 :
      (m : Moment) (folder name : Text) (n : ℕ) (rest : List Text) (err : Option Err)
      → Lacks b' ' name
      → n < 2 ^ 63
      → H.read_file m (folder ++ codes "/cpu.stat")
        ≡ scanned ((name ++ (b' ' ∷ format n)) ∷ rest) err
      → read_cgroupv2_cpu H m folder ≡ some (wrap64 (pos (n * 1000)), none)
  unfolding read_cgroupv2_cpu
  cpu_of_v2 m folder name n rest err l h e =
      let line =
        read_first_line_scanned H m (folder ++ codes "/cpu.stat") (name ++ (b' ' ∷ format n)) rest
          err e in
      let number = parse_int-format n h in
      rw (read_cgroupv2_cpu, line, line, split_entry name n l, number, number, thousandfold n) refl

  -- The readers of both versions of cgroups agree on a time of t microseconds that is below 2^63
  -- nanoseconds: where the first line of cpuacct.usage is that time in nanoseconds, the reader of
  -- the first version returns it without an error, and where the first line of cpu.stat has it in
  -- microseconds behind a name without a blank, the reader of the second version returns the same.
  -- What stands behind the first lines has no effect.
  pub read_cgroupv2_cpu-read_cgroup_cpu :
      (m m' : Moment) (folder folder' name : Text) (t : ℕ) (rest rest' : List Text)
      (err err' : Option Err)
      → Lacks b' ' name
      → t * 1000 < 2 ^ 63
      → H.read_file m (folder ++ codes "/cpuacct.usage") ≡ scanned (format (t * 1000) ∷ rest) err
      → H.read_file m' (folder' ++ codes "/cpu.stat")
        ≡ scanned ((name ++ (b' ' ∷ format t)) ∷ rest') err'
      → (read_cgroup_cpu H m folder ≡ (pos (t * 1000), none))
        × (read_cgroupv2_cpu H m' folder' ≡ some (read_cgroup_cpu H m folder))
  unfolding wrap64
  read_cgroupv2_cpu-read_cgroup_cpu m m' folder folder' name t rest rest' err err' l h e e' =
      let v1 = cpu_of_v1 m folder (t * 1000) rest err h e in
      let fits : wrap64 (pos (t * 1000)) ≡ pos (t * 1000) = ground arith in
      (v1, rw (v1, cpu_of_v2 m' folder' name t rest' err' l (omega arith) e', fits) refl)
