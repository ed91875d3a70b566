-- ===== src/Tests/Loads.antt =====
-- The load of the host at a concrete /proc/loadavg.
use telemd.Base.{◌≡◌, refl, none, some, [], ◌∷◌, ◌++◌, codes, arith}
use telemd.Host.{Host, start, scanned}
use telemd.Measure.{measure_load, measure_procs, put_parsed}
use telemd.Measure.Loads.{LoadLine, text_of, loadavg-puts}
use telemd.Go.Strings.{join}
use telemd.Tests.Hosts.{bare_host}
use telemd.Tests.Measures.{whole_numbers}

abbrev load_line : LoadLine
load_line = record {
  load1 = codes "2";
  load5 = codes "0.58";
  load15 = codes "0.59";
  running = codes "3";
  processes = codes "1128";
  last_pid = codes "11206";
}

kernel_text : text_of load_line ≡ codes "2 0.58 0.59 3/1128 11206"
unfolding join
kernel_text = refl

abbrev busy_host : Host
busy_host = record bare_host { read_file = λ m path. scanned (text_of load_line ∷ []) none }

loadavg-puts_example :
    (measure_load whole_numbers busy_host start
      ≡ some (
          put_parsed whole_numbers (codes "load1") (whole_numbers.parse (codes "2"))
          ++ put_parsed whole_numbers (codes "load5") (whole_numbers.parse (codes "0.58"))))
    × (measure_procs whole_numbers busy_host start
        ≡ some (put_parsed whole_numbers (codes "procs") (whole_numbers.parse (codes "3"))))
loadavg-puts_example =
    loadavg-puts whole_numbers busy_host start load_line [] none (ground arith, ground arith) refl
