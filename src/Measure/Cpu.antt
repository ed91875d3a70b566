-- ===== src/Measure/Cpu.antt =====
-- The share of busy time, from /proc/stat as the kernel writes it.
use telemd.Base.{◌≡◌, refl, some, List, [], ◌∷◌, Text, codes, Option}
use telemd.Go.Strconv.{Err}
use telemd.Go.Float.{Floats}
use telemd.Base.Int.{pos}
use telemd.Host.{Host, Moment, next, scanned}
use telemd.Sysparse.Stat.{CpuLine, text_of, value, IsCpuLine, read_cpu_util_lem}
use telemd.Measure.{measure_cpu_util, cpu_share}

-- The growth of the times of user and system processes, in the code's order of the operations.
abbrev pub busy : (F : Floats) → CpuLine → CpuLine → F.Float
busy F before now =
    F.sub (F.add (F.sub (value F now.user) (value F before.user)) (value F now.system))
      (value F before.system)

-- Of two readings of a /proc/stat in the kernel's form, the cpu instrument puts the growth of the
-- times of user and system processes as a percentage of that and the idle time's growth: the other
-- times, as those of niced processes, of waiting and of interrupts, count neither as busy nor at all.
pub measure_cpu_util-share :
    (F : Floats) (H : Host) (m : Moment) (before now : CpuLine) (rest rest' : List Text)
    (err err' : Option Err)
    → IsCpuLine F before
    → IsCpuLine F now
    → H.read_file m (codes "/proc/stat") ≡ scanned (text_of before ∷ rest) err
    → H.read_file (next m) (codes "/proc/stat") ≡ scanned (text_of now ∷ rest') err'
    → measure_cpu_util F H m
      ≡ some (
          (
            codes "cpu",
            F.div
                (F.mul (busy F before now) (F.of_int (pos 100)))
                (F.sub (F.add (busy F before now) (value F now.idle)) (value F before.idle)),
          )
          ∷ [])
unfolding measure_cpu_util cpu_share
measure_cpu_util-share F H m before now rest rest' err err' h h' e e' =
    rw
      (
        read_cpu_util_lem F H m before rest err h e,
        read_cpu_util_lem F H (next m) now rest' err' h' e',
      )
      refl
