-- ===== src/Measure/Memory.antt =====
-- The memory of the host, from /proc/meminfo as the kernel writes it.
use telemd.Base.{
  ℕ, ◌<◌, ◌^◌, ap, Text, ◌≡◌, refl, ◌∙◌, some, none, List, [], ◌∷◌, codes, arith, All, map,
}
use telemd.Base.Int.{pos, ◌-ℤ◌, sub64, wrap64_of_IsInt64}
use telemd.Base.Dict.{Dict}
use telemd.Base.Dict
use telemd.Go.Float.{Floats}
use telemd.Host.{Host, Moment, scanned}
use telemd.Sysparse.{read_meminfo, read_mem_total, parse_meminfo_string}
use telemd.Sysparse.Meminfo.{
  MemLine, text_of, value_text, IsMemLine, last_line, read_meminfo_lem, last_line-IsMemLine,
  parse_value, lookup_value,
}
use telemd.Measure.{measure_ram, ram_of}

difference-IsInt64 : (a b : ℕ) → a < 2 ^ 63 → b < 2 ^ 63 → sub64 (pos a) (pos b) ≡ pos a -ℤ pos b
unfolding sub64 ◌-ℤ◌
difference-IsInt64 a b h k = wrap64_of_IsInt64 (pos a -ℤ pos b) (ground arith)

ram_of_lem :
    (F : Floats) (vals : Dict Text) (total available : Text) (t a : ℕ)
    → Dict.lookup (codes "MemTotal") vals ≡ some total
    → Dict.lookup (codes "MemAvailable") vals ≡ some available
    → parse_meminfo_string total ≡ (pos t, none)
    → parse_meminfo_string available ≡ (pos a, none)
    → ram_of F vals ≡ (codes "ram", F.of_int (sub64 (pos t) (pos a))) ∷ []
unfolding ram_of
ram_of_lem F vals total available t a e e' p p' = grind (arith, e, e', p, p')

measure_ram_lem :
    (F : Floats) (H : Host) (m : Moment) (vals : Dict Text)
    → read_meminfo H m ≡ some vals
    → measure_ram F H m ≡ some (ram_of F vals)
unfolding measure_ram
measure_ram_lem F H m vals e = rw e refl

read_mem_total_lem :
    (H : Host) (m : Moment) (vals : Dict Text) (total : Text)
    → read_meminfo H m ≡ some vals
    → Dict.lookup (codes "MemTotal") vals ≡ some total
    → read_mem_total H m ≡ some (parse_meminfo_string total)
unfolding read_mem_total
read_mem_total_lem H m vals total e e' = ground (arith, e, e')

-- From a /proc/meminfo whose lines are names and amounts, with a line for `MemTotal` and one for
-- `MemAvailable`, the ram instrument puts the difference of the two amounts, the last ones under
-- these names; and the information of the node gets the total.
pub measure_ram-difference :
    (F : Floats) (H : Host) (m : Moment) (ls : List MemLine) (total available : MemLine)
    → All IsMemLine ls
    → H.read_file m (codes "/proc/meminfo") ≡ scanned (map text_of ls) none
    → last_line (codes "MemTotal") ls ≡ some total
    → last_line (codes "MemAvailable") ls ≡ some available
    → (measure_ram F H m
        ≡ some ((codes "ram", F.of_int (pos total.amount -ℤ pos available.amount)) ∷ []))
      × (read_mem_total H m ≡ some (pos total.amount, none))
measure_ram-difference F H m ls total available h e e_total e_available =
    let (vals, read, table) = read_meminfo_lem H m ls h e in
    let total_line = last_line-IsMemLine (codes "MemTotal") ls total h e_total in
    let available_line = last_line-IsMemLine (codes "MemAvailable") ls available h e_available in
    let found = lookup_value vals (codes "MemTotal") ls total (table (codes "MemTotal")) e_total in
    let found' =
      lookup_value vals (codes "MemAvailable") ls available (table (codes "MemAvailable"))
        e_available in
    let p = parse_value total total_line in
    let p' = parse_value available available_line in
    (
      measure_ram_lem F H m vals read
          ∙ ap some (
              ram_of_lem F vals (value_text total) (value_text available) total.amount
                available.amount found found' p p'
              ∙ ap (λ d. (codes "ram", F.of_int d) ∷ [])
                  (difference-IsInt64 total.amount available.amount total_line.2 available_line.2)),
      read_mem_total_lem H m vals (value_text total) read found ∙ ap some p,
    )
