-- ===== src/Tests/Cpu.antt =====
-- The cpu instrument at two readings of /proc/stat.
use telemd.Base.{◌≡◌, refl, none, some, [], ◌∷◌, Text, codes, arith}
use telemd.Base.Int.{pos, add64, sub64}
use telemd.Go.Strconv.{parse_int}
use telemd.Go.Strings.{join, trim_blanks}
use telemd.Host.{Host, Moment, start, scanned}
use telemd.Sysparse.Stat.{CpuLine, text_of, IsCpuLine, value}
use telemd.Measure.{measure_cpu_util}
use telemd.Measure.Cpu.{busy, measure_cpu_util-share}
use telemd.Tests.Hosts.{bare_host}
use telemd.Tests.Measures.{whole_numbers}

abbrev first : CpuLine
first = record {
  user = codes "100";
  nice = codes "7";
  system = codes "50";
  idle = codes "800";
  others = codes "3" ∷ codes "0" ∷ [];
}

abbrev second : CpuLine
second = record first { user = codes "130"; system = codes "60"; idle = codes "860" }

kernel_text : text_of first ≡ codes "cpu  100 7 50 800 3 0"
unfolding join
kernel_text = refl

stat_at : Moment → Text
stat_at start = text_of first
stat_at _ = text_of second

abbrev cpu_host : Host
cpu_host = record bare_host { read_file = λ m path. scanned (stat_at m ∷ []) none }

first-IsCpuLine : IsCpuLine whole_numbers first
unfolding join trim_blanks parse_int
first-IsCpuLine = record {
  blanks = ground arith;
  ends = refl;
  numbers = (refl, (refl, (refl, (refl, (refl, (refl, tt))))));
}

second-IsCpuLine : IsCpuLine whole_numbers second
unfolding join trim_blanks parse_int
second-IsCpuLine = record {
  blanks = ground arith;
  ends = refl;
  numbers = (refl, (refl, (refl, (refl, (refl, (refl, tt))))));
}

-- With whole numbers in place of floats, whose division is left out.
busy_lem : busy whole_numbers first second ≡ pos 40
unfolding parse_int sub64 add64
busy_lem = refl

measure_cpu_util-share_example :
    measure_cpu_util whole_numbers cpu_host start
    ≡ some (
        (
          codes "cpu",
          whole_numbers.div
              (whole_numbers.mul (busy whole_numbers first second) (whole_numbers.of_int (pos 100)))
              (whole_numbers.sub
                (whole_numbers.add
                  (busy whole_numbers first second)
                  (value whole_numbers second.idle))
                (value whole_numbers first.idle)),
        )
        ∷ [])
unfolding stat_at
measure_cpu_util-share_example =
    measure_cpu_util-share whole_numbers cpu_host start first second [] [] none none first-IsCpuLine
      second-IsCpuLine refl refl
