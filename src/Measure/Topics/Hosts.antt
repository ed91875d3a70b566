-- ===== src/Measure/Topics/Hosts.antt =====
-- The topics of the instruments that read the host as a whole.
use telemd.Base.{
  ℕ, ◌⊎◌, inl, inr, Option, none, some, List, [], ◌∷◌, ◌++◌, Text, codes, ◌>>=◌, All-append,
  get_elem?,
}
use telemd.Base.Int.{sub64}
use telemd.Base.Dict
use telemd.Go.Strconv.{Err, WithErr}
use telemd.Go.Strings.{split}
use telemd.Go.Float.{Floats}
use telemd.Host.{Host, Moment, next, Scan, not_opened, scanned}
use telemd.Fileio.{read_first_line}
use telemd.Telem.{topic_separator}
use telemd.Sysparse.{
  read_cpu_util, read_meminfo, parse_meminfo_string, first_part, PsiMeasure, PsiResult,
  read_psi_result, parse_iw,
}
use telemd.Measure.{
  put_parsed, cpu_share, measure_cpu_util, sum_mhz, measure_cpu_info_frequency, sum_scaling,
  measure_cpu_scaling_frequency, measure_load, measure_procs, ram_of, measure_ram, psi_puts,
  measure_psi, measure_wifi,
}
use telemd.Measure.Topics.{
  AllTopics, Topics, some-Topics, none-Topics, bind-Topics, put_parsed-AllTopics,
}

module _ (F : Floats) (P : Text → Type 0) (H : Host) (m : Moment) where
  pub measure_cpu_util-Topics : P (codes "cpu") → Topics F P (measure_cpu_util F H m)
  unfolding measure_cpu_util
  measure_cpu_util-Topics h = bind-Topics F P (read_cpu_util F H m) _ λ before.
      bind-Topics F P (read_cpu_util F H (next m)) _
        λ now. bind-Topics F P (cpu_share F before now) _ λ share. some-Topics F P _ (h, tt)

  frequency_of_scan :
      P (codes "freq")
      → (scan : Scan)
      → Topics F P (elim scan [
        | not_opened err ↦ none
        | scanned lines err ↦ sum_mhz F lines F.zero >>= λ sum. some ((codes "freq", sum) ∷ [])
      ])
  frequency_of_scan h (not_opened err) = none-Topics F P
  frequency_of_scan h (scanned lines err) =
      bind-Topics F P (sum_mhz F lines F.zero) _ λ sum. some-Topics F P _ (h, tt)

  pub measure_cpu_info_frequency-Topics :
      P (codes "freq") → Topics F P (measure_cpu_info_frequency F H m)
  unfolding measure_cpu_info_frequency
  measure_cpu_info_frequency-Topics h = frequency_of_scan h (H.read_file m (codes "/proc/cpuinfo"))

  pub measure_cpu_scaling_frequency-Topics :
      (files : List Text)
      → P (codes "freq")
      → Topics F P (measure_cpu_scaling_frequency F H m files)
  unfolding measure_cpu_scaling_frequency
  measure_cpu_scaling_frequency-Topics files h =
      bind-Topics F P (sum_scaling F H m files _) _ λ sum. some-Topics F P _ (h, tt)

  load_of_line :
      P (codes "load1")
      → P (codes "load5")
      → (line : WithErr Text)
      → Topics F P (elim line.1 [
        | some e ↦ none
        | none ↦ get_elem? (split line.0 b' ') 0 >>= λ l1. get_elem? (split line.0 b' ') 1 >>= λ l5.
            some (
              put_parsed F (codes "load1") (F.parse l1)
              ++ put_parsed F (codes "load5") (F.parse l5))
      ])
  load_of_line h k (text, some e) = none-Topics F P
  load_of_line h k (text, none) = bind-Topics F P (get_elem? (split text b' ') 0) _ λ l1.
      bind-Topics F P (get_elem? (split text b' ') 1) _ λ l5. some-Topics F P _ (
        All-append (λ p. P p.0) _ _ (put_parsed-AllTopics F P (codes "load1") (F.parse l1) h)
          (put_parsed-AllTopics F P (codes "load5") (F.parse l5) k))

  pub measure_load-Topics : P (codes "load1") → P (codes "load5") → Topics F P (measure_load F H m)
  unfolding measure_load
  measure_load-Topics h k = load_of_line h k (read_first_line H m (codes "/proc/loadavg"))

  procs_of_line :
      P (codes "procs")
      → (line : WithErr Text)
      → Topics F P (elim line.1 [
        | some e ↦ none
        | none ↦ get_elem? (split line.0 b' ') 3 >>= λ field.
            some (put_parsed F (codes "procs") (F.parse (first_part (split field b'/'))))
      ])
  procs_of_line h (text, some e) = none-Topics F P
  procs_of_line h (text, none) =
      bind-Topics F P (get_elem? (split text b' ') 3) _
        λ field. some-Topics F P _ (put_parsed-AllTopics F P (codes "procs") _ h)

  pub measure_procs-Topics : P (codes "procs") → Topics F P (measure_procs F H m)
  unfolding measure_procs
  measure_procs-Topics h = procs_of_line h (read_first_line H m (codes "/proc/loadavg"))

  pub measure_wifi-AllTopics :
      (topic attribute : Text) (index : ℕ) (device : Text)
      → P (topic ++ (topic_separator ++ device))
      → AllTopics F P (measure_wifi F H m topic attribute index device)
  unfolding measure_wifi
  measure_wifi-AllTopics topic attribute index device h =
      wifi_of_value (parse_iw H m device attribute index)
    where
      wifi_of_value :
          (value : WithErr Text)
          → AllTopics F P (elim value.1 [
            | some e ↦ []
            | none ↦ put_parsed F (topic ++ (topic_separator ++ device)) (F.parse value.0)
          ])
      wifi_of_value (value, some e) = tt
      wifi_of_value (value, none) = put_parsed-AllTopics F P _ (F.parse value) h

  psi_puts-AllTopics :
      (resource : Text) (result : Err ⊎ PsiResult F)
      → P (codes "psi_" ++ (resource ++ codes "/some"))
      → P (codes "psi_" ++ (resource ++ codes "/full"))
      → AllTopics F P (psi_puts F resource result)
  unfolding psi_puts
  psi_puts-AllTopics resource (inl err) h k = tt
  psi_puts-AllTopics resource (inr result) h k = (h, full_puts result.full_measure)
    where
      full_puts :
          (o : Option (PsiMeasure F))
          → AllTopics F P (elim o [
            | none ↦ []
            | some full ↦ (codes "psi_" ++ (resource ++ codes "/full"), full.total) ∷ []
          ])
      full_puts none = tt
      full_puts (some full) = (k, tt)

  pub measure_psi-Topics :
      (resource : Text)
      → P (codes "psi_" ++ (resource ++ codes "/some"))
      → P (codes "psi_" ++ (resource ++ codes "/full"))
      → Topics F P (measure_psi F H m resource)
  unfolding measure_psi
  measure_psi-Topics resource h k =
      bind-Topics F P (read_psi_result F H m resource) _
        λ result. some-Topics F P _ (psi_puts-AllTopics resource result h k)

  ram_of_amounts :
      (value : Text → Text → F.Float) (total available : Option Text)
      → P (codes "ram")
      → AllTopics F P (elim total [
        | none ↦ []
        | some t ↦ elim available [ none ↦ [] | some a ↦ (codes "ram", value t a) ∷ [] ]
      ])
  ram_of_amounts value none available h = tt
  ram_of_amounts value (some t) none h = tt
  ram_of_amounts value (some t) (some a) h = (h, tt)

  pub measure_ram-Topics : P (codes "ram") → Topics F P (measure_ram F H m)
  unfolding measure_ram ram_of
  measure_ram-Topics h = bind-Topics F P (read_meminfo H m) _ λ meminfo. some-Topics F P _ (
      ram_of_amounts (λ t a. F.of_int (sub64 (parse_meminfo_string t).0 (parse_meminfo_string a).0))
        (Dict.lookup (codes "MemTotal") meminfo) (Dict.lookup (codes "MemAvailable") meminfo) h)
