-- ===== src/Tests/Memory.antt =====
-- The memory of the host at a concrete /proc/meminfo.
use mathlib.Core.Option.{or_else}
use telemd.Base.{◌≡◌, refl, true, false, some, none, List, [], ◌∷◌, codes, arith, map, text_dec}
use telemd.Base.Int.{pos, ◌-ℤ◌}
use telemd.Host.{Host, start, scanned}
use telemd.Sysparse.{read_mem_total}
use telemd.Sysparse.Meminfo.{MemLine, text_of, last_line}
use telemd.Measure.{measure_ram}
use telemd.Measure.Memory.{measure_ram-difference}
use telemd.Tests.Hosts.{bare_host}
use telemd.Tests.Measures.{whole_numbers}

abbrev mem_total : MemLine
mem_total = record { key = codes "MemTotal"; blanks = 7; amount = 16326532; in_kb = true }

abbrev mem_available : MemLine
mem_available = record { key = codes "MemAvailable"; blanks = 3; amount = 12000000; in_kb = true }

abbrev mem_lines : List MemLine
mem_lines =
    mem_total
    ∷ record { key = codes "MemFree"; blanks = 9; amount = 300; in_kb = true }
    ∷ mem_available
    ∷ record { key = codes "HugePages_Total"; blanks = 1; amount = 0; in_kb = false }
    ∷ []

abbrev mem_host : Host
mem_host = record bare_host { read_file = λ m path. scanned (map text_of mem_lines) none }

measure_ram-difference_example :
    (measure_ram whole_numbers mem_host start
      ≡ some ((codes "ram", pos 16326532 -ℤ pos 12000000) ∷ []))
    × (read_mem_total mem_host start ≡ some (pos 16326532, none))
unfolding last_line or_else text_dec
measure_ram-difference_example =
    measure_ram-difference whole_numbers mem_host start mem_lines mem_total mem_available
      (ground arith) refl refl refl
