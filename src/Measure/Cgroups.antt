-- ===== src/Measure/Cgroups.antt =====
-- internal/telemd/instrument.go: the instruments of docker and kubernetes containers that read
-- files of their cgroups. `none` is a panic. What goroutines of their own put has no fixed order;
-- the lists give one.
pub mod IoStat
pub mod Usage
use telemd.Base.{
  ℕ, Bool, true, false, ◌&&◌, ◌||◌, not, Option, none, some, List, [], ◌∷◌, ◌++◌, Text, codes,
  equal, if◌then◌else◌, ◌>>=◌, get_elem?, length, ◌==◌, map,
}
use telemd.Base.Int.{ℤ, pos, negsuc, add64, mul64}
use telemd.Go.Strconv.{Err, WithErr, parse_int}
use telemd.Go.Strings.{split, has_prefix, contains}
use telemd.Host.{Host, Moment, next, child, not_opened, scanned}
use telemd.Fileio.{visit_lines, parse_int64, read_first_line, read_line_and_parse_int, is_not_exist}
use telemd.Cfg.Devices.{list_filter_dir}

-- The value, or -1 with the error.
abbrev pub minus_one_on_error : WithErr ℤ → WithErr ℤ
minus_one_on_error (v, none) = (v, none)
minus_one_on_error (v, some err) = (negsuc 0, some err)

module _ (H : Host) where
  unfoldable pub read_cgroup_cpu : Moment → Text → WithErr ℤ
  read_cgroup_cpu m folder =
      minus_one_on_error (read_line_and_parse_int H m (folder ++ codes "/cpuacct.usage"))

  -- In nanoseconds; a first line without a blank is a panic.
  pub read_cgroupv2_cpu : Moment → Text → Option (WithErr ℤ)
  read_cgroupv2_cpu m folder =
      let (value, err) = read_first_line H m (folder ++ codes "/cpu.stat") in
      elim err [
        | some e ↦ some (negsuc 0, some e)
        | none ↦ do
          unparsed ← get_elem? (split value b' ') 1
          some (elim (parse_int unparsed).1 [
            | some e ↦ (negsuc 0, some e)
            | none ↦ (mul64 (parse_int unparsed).0 (pos 1000), none)
          ])
      ]

  -- The visitor of `readBlkioTotal` with the named results and a panic as its state.
  pub blkio_line : Text → Option (WithErr ℤ) → Option (WithErr ℤ) × Bool
  blkio_line line result =
      if has_prefix line (codes "Total")
      then (do some (parse_int (← get_elem? (split line b' ') 1)), false)
      else (result, true)

  -- The error of the file comes first.
  pub or_visitor_error : Option (WithErr ℤ) → Option Err → Option (WithErr ℤ)
  or_visitor_error none _ = none
  or_visitor_error (some (val, err)) none = some (val, err)
  or_visitor_error (some (val, err)) (some e) = some (val, some e)

  pub read_blkio_total : Moment → Text → Option (WithErr ℤ)
  unfolding blkio_line or_visitor_error
  read_blkio_total m path =
      let (result, err) = visit_lines blkio_line H m path (some (pos 0, none)) in
      or_visitor_error result err

  pub read_cgroup_blkio : Moment → Text → Option (WithErr ℤ)
  unfolding read_blkio_total
  read_cgroup_blkio m folder = do
    result ← read_blkio_total m (folder ++ codes "/blkio.throttle.io_service_bytes")
    some (minus_one_on_error result)

  -- The number behind `=` in a word of a line.
  pub io_field : Text → ℕ → Option Text
  io_field line i = do word ← get_elem? (split line b' ') i; get_elem? (split word b'=') 1

  -- The loop of `readIoStat`, with the sums so far.
  pub io_lines : List Text → ℤ → ℤ → Option ((ℤ × ℤ) × Option Err)
  unfolding io_field
  io_lines [] read written = some ((read, written), none)
  io_lines (line ∷ lines) read written = do
    raw_read ← io_field line 1
    raw_written ← io_field line 2
    elim (parse_int64 raw_read).1 [
      | some e ↦ some ((negsuc 0, negsuc 0), some e)
      | none ↦ elim (parse_int64 raw_written).1 [
        | some e ↦ some ((negsuc 0, negsuc 0), some e)
        | none ↦
            io_lines lines (add64 read (parse_int64 raw_read).0)
              (add64 written (parse_int64 raw_written).0)
      ]
    ]

  -- The scanner's error is not asked for.
  pub read_io_stat : Moment → Text → Option ((ℤ × ℤ) × Option Err)
  unfolding io_lines
  read_io_stat m path = elim (H.read_file m path) [
    | not_opened err ↦ some ((negsuc 0, negsuc 0), some err)
    | scanned lines err ↦ io_lines lines (pos 0) (pos 0)
  ]

  pub read_cgroupv2_blkio : Moment → Text → Option (WithErr ℤ)
  unfolding read_io_stat
  read_cgroupv2_blkio m folder = do
    result ← read_io_stat m (folder ++ codes "/io.stat")
    some (minus_one_on_error (add64 result.0.0 result.0.1, result.1))

  -- The visitor of `readMemory`: each line overwrites the result.
  pub memory_line : Text → WithErr ℤ → WithErr ℤ × Bool
  memory_line line result = (parse_int line, true)

  pub read_memory : Moment → Text → WithErr ℤ
  unfolding memory_line
  read_memory m path =
      let (result, err) = visit_lines memory_line H m path (pos 0, none) in
      elim err [ none ↦ result | some e ↦ (result.0, some e) ]

  pub read_cgroup_memory : Moment → Text → WithErr ℤ
  unfolding read_memory
  read_cgroup_memory m folder =
      minus_one_on_error (read_memory m (folder ++ codes "/memory.usage_in_bytes"))

  pub read_cgroupv2_memory : Moment → Text → WithErr ℤ
  read_cgroupv2_memory m folder =
      minus_one_on_error (read_line_and_parse_int H m (folder ++ codes "/memory.current"))

  -- The names that the filters let through; an error is logged and leaves none.
  unfoldable pub docker_dirs : Moment → Text → List Text
  docker_dirs m dirname =
      (list_filter_dir H m dirname (λ info.
        info.is_dir && not (equal info.name (codes ".")) && not (equal info.name (codes "..")))).0

  unfoldable pub list_cgroupv2_folders : Moment → Text → Text → List Text
  list_cgroupv2_folders m prefix dirname =
      (list_filter_dir H m dirname (λ info.
        info.is_dir
        && not (equal info.name (codes "."))
        && not (equal info.name (codes ".."))
        && has_prefix info.name prefix)).0

  -- The containers of each pod.
  pub container_dirs : Moment → Text → List Text → List Text
  container_dirs m kubepod_dir [] = []
  container_dirs m kubepod_dir (pod ∷ pods) =
      let pod_dir = kubepod_dir ++ (b'/' ∷ pod) in
      map (λ id. pod_dir ++ (b'/' ∷ id))
        (list_filter_dir H m pod_dir
          (λ info. info.is_dir && (length info.name == 64 || length info.name == 85))).0
      ++ container_dirs (next m) kubepod_dir pods

  unfoldable pub fetch_kubernetes_container_dirs : Moment → Text → List Text
  unfolding container_dirs
  fetch_kubernetes_container_dirs m kubepod_dir =
      if is_not_exist (H.stat m kubepod_dir)
      then []
      else container_dirs (child 1 m) kubepod_dir
          (list_filter_dir H (child 0 m) kubepod_dir
            (λ info. info.is_dir && contains info.name (codes "pod"))).0
