-- ===== src/Measure.antt =====
-- internal/telemd/instrument.go: `MeasureAndReport` of the instruments that read the host as a
-- whole. The result is what they put into the telemetry channel, topics with values; `none` is a
-- panic or `log.Fatal`.
pub mod Rates
pub mod Cgroups
pub mod Containers
pub mod Networks
pub mod Memory
pub mod Loads
pub mod Cpu
pub mod Dispatch
pub mod Topics
use telemd.Base.{
  ℕ, Bool, true, false, Option, none, some, List, [], ◌∷◌, ◌++◌, Text, codes, if◌then◌else◌, ◌>>=◌,
  get_elem?, ◌⊎◌, inl, inr,
}
use telemd.Base.Int.{ℤ, pos, add64, sub64}
use telemd.Base.Dict.{Dict}
use telemd.Base.Dict
use telemd.Go.Strconv.{Err, WithErr}
use telemd.Go.Strings.{split, has_prefix, trim_blanks}
use telemd.Go.Float.{Floats}
use telemd.Host.{Host, Moment, next, Scan, not_opened, scanned}
use telemd.Fileio.{read_first_line, read_line_and_parse_int}
use telemd.Telem.{topic_separator}
use telemd.Sysparse.{
  read_cpu_util, read_meminfo, parse_meminfo_string, first_part, PsiResult, read_psi_result,
  parse_iw,
}

module _ (F : Floats) where
  abbrev pub Put : Type 0
  Put = Text × F.Float

  -- `if val, err := ParseFloat(...); err == nil { channel.Put(...) }`
  pub put_parsed : Text → WithErr F.Float → List Put
  put_parsed topic (val, none) = (topic, val) ∷ []
  put_parsed topic (val, some err) = []

  -- `for ... := range ...` with a body that may end the program.
  unfoldable pub put_each :
      (Moment → Text → Option (List Put)) → Moment → List Text → Option (List Put)
  put_each body m [] = some []
  put_each body m (x ∷ xs) = do
    puts ← body m x
    rest ← put_each body (next m) xs
    some (puts ++ rest)

  -- `then`, `now` and the share of the busy time in both.
  pub cpu_share : List F.Float → List F.Float → Option F.Float
  cpu_share before now = do
    u ← get_elem? before 0
    s ← get_elem? before 2
    i ← get_elem? before 3
    u' ← get_elem? now 0
    s' ← get_elem? now 2
    i' ← get_elem? now 3
    let busy = F.sub (F.add (F.sub u' u) s') s
    some (F.div (F.mul busy (F.of_int (pos 100))) (F.sub (F.add busy i') i))

  pub measure_cpu_util : Host → Moment → Option (List Put)
  unfolding cpu_share
  measure_cpu_util H m = do
    before ← read_cpu_util F H m
    now ← read_cpu_util F H (next m)
    share ← cpu_share before now
    some ((codes "cpu", share) ∷ [])

  -- The sum over the lines of /proc/cpuinfo.
  pub sum_mhz : List Text → F.Float → Option F.Float
  sum_mhz [] sum = some sum
  sum_mhz (text ∷ lines) sum =
      if has_prefix text (codes "cpu MHz")
      then (get_elem? (split text b':') 1 >>= λ part. elim (F.parse (trim_blanks part)).1 [
        | none ↦ sum_mhz lines (F.add sum (F.parse (trim_blanks part)).0)
        | some err ↦ sum_mhz lines sum
      ])
      else sum_mhz lines sum

  -- The scanner's error is looked at behind a line that was read, where it is nil.
  pub measure_cpu_info_frequency : Host → Moment → Option (List Put)
  unfolding sum_mhz
  measure_cpu_info_frequency H m = elim (H.read_file m (codes "/proc/cpuinfo")) [
    | not_opened err ↦ none
    | scanned lines err ↦ do sum ← sum_mhz lines F.zero; some ((codes "freq", sum) ∷ [])
  ]

  pub sum_scaling : Host → Moment → List Text → ℤ → Option ℤ
  sum_scaling H m [] sum = some sum
  sum_scaling H m (file ∷ files) sum = elim (read_line_and_parse_int H m file).1 [
    | some err ↦ none
    | none ↦ sum_scaling H (next m) files (add64 sum (read_line_and_parse_int H m file).0)
  ]

  -- The files are those of the variable `cpuScalingFiles`, which is made when the program starts.
  pub measure_cpu_scaling_frequency : Host → Moment → List Text → Option (List Put)
  unfolding sum_scaling
  measure_cpu_scaling_frequency H m files = do
    sum ← sum_scaling H m files (pos 0)
    some ((codes "freq", F.of_int sum) ∷ [])

  pub measure_load : Host → Moment → Option (List Put)
  unfolding put_parsed
  measure_load H m =
      let (text, err) = read_first_line H m (codes "/proc/loadavg") in
      elim err [
        | some e ↦ none
        | none ↦ do
          l1 ← get_elem? (split text b' ') 0
          l5 ← get_elem? (split text b' ') 1
          some (put_parsed (codes "load1") (F.parse l1) ++ put_parsed (codes "load5") (F.parse l5))
      ]

  pub measure_procs : Host → Moment → Option (List Put)
  unfolding put_parsed
  measure_procs H m =
      let (text, err) = read_first_line H m (codes "/proc/loadavg") in
      elim err [
        | some e ↦ none
        | none ↦ do
          field ← get_elem? (split text b' ') 3
          some (put_parsed (codes "procs") (F.parse (first_part (split field b'/'))))
      ]

  -- The second value that is missing ends it; an error of a conversion is logged only.
  pub ram_of : Dict Text → List Put
  ram_of meminfo = elim (Dict.lookup (codes "MemTotal") meminfo) [
    | none ↦ []
    | some total_string ↦ elim (Dict.lookup (codes "MemAvailable") meminfo) [
      | none ↦ []
      | some free_string ↦
          (
            codes "ram",
            F.of_int
                (sub64 (parse_meminfo_string total_string).0 (parse_meminfo_string free_string).0),
          )
          ∷ []
    ]
  ]

  pub measure_ram : Host → Moment → Option (List Put)
  unfolding ram_of
  measure_ram H m = do meminfo ← read_meminfo H m; some (ram_of meminfo)

  -- The three instruments differ in the resource.
  psi_puts : Text → Err ⊎ PsiResult F → List Put
  psi_puts resource (inl err) = []
  psi_puts resource (inr result) =
      (codes "psi_" ++ (resource ++ codes "/some"), result.some_measure.total)
      ∷ elim result.full_measure [
        | none ↦ []
        | some full ↦ (codes "psi_" ++ (resource ++ codes "/full"), full.total) ∷ []
      ]

  pub measure_psi : Host → Moment → Text → Option (List Put)
  unfolding psi_puts
  measure_psi H m resource = do
    result ← read_psi_result F H m resource
    some (psi_puts resource result)

  -- The three instruments differ in the attribute, its column and the topic.
  pub measure_wifi : Host → Moment → Text → Text → ℕ → Text → List Put
  unfolding put_parsed
  measure_wifi H m topic attribute index device =
      let (value, err) = parse_iw H m device attribute index in
      elim err [
        | some e ↦ []
        | none ↦ put_parsed (topic ++ (topic_separator ++ device)) (F.parse value)
      ]
