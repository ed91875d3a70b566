-- ===== src/Measure/Loads.antt =====
-- The load and the processes of the host, from /proc/loadavg as the kernel writes it.
use telemd.Base.{◌≡◌, refl, ap, some, List, [], ◌∷◌, ◌++◌, Text, codes, All, Option}
use telemd.Go.Strconv.{Err, WithErr}
use telemd.Go.Strings.{join, split}
use telemd.Go.Split.{Lacks, split-join, split-append}
use telemd.Go.Float.{Floats}
use telemd.Host.{Host, Moment, scanned}
use telemd.Fileio.Lines.{read_first_line_scanned}
use telemd.Measure.{measure_load, measure_procs, put_parsed}

-- The averages over one, five and fifteen minutes, the processes that run and all there are, and
-- the process that was started last.
pub record LoadLine : Type 0 where
  pub load1 : Text
  pub load5 : Text
  pub load15 : Text
  pub running : Text
  pub processes : Text
  pub last_pid : Text

abbrev columns : LoadLine → List Text
columns l = l.load1 ∷ l.load5 ∷ l.load15 ∷ (l.running ++ (b'/' ∷ l.processes)) ∷ l.last_pid ∷ []

abbrev pub text_of : LoadLine → Text
text_of l = join (columns l) (codes " ")

-- No blank in a column, and no slash in the number of those that run.
abbrev pub IsLoadLine : LoadLine → Type 0
IsLoadLine l = All (Lacks b' ') (columns l) × Lacks b'/' l.running

-- From a /proc/loadavg whose first line has the kernel's columns, `MeasureAndReport` puts the
-- averages over one and five minutes under `load1` and `load5`, and of the processes those that
-- run, each if it is a number; neither instrument panics.
pub loadavg-puts :
    (F : Floats) (H : Host) (m : Moment) (l : LoadLine) (rest : List Text) (err : Option Err)
    → IsLoadLine l
    → H.read_file m (codes "/proc/loadavg") ≡ scanned (text_of l ∷ rest) err
    → (measure_load F H m
        ≡ some (
            put_parsed F (codes "load1") (F.parse l.load1)
            ++ put_parsed F (codes "load5") (F.parse l.load5)))
      × (measure_procs F H m ≡ some (put_parsed F (codes "procs") (F.parse l.running)))
unfolding measure_load measure_procs
loadavg-puts F H m l rest err (blanks, slash) e =
    let line = read_first_line_scanned H m (codes "/proc/loadavg") (text_of l) rest err e in
    let text = ap (λ (r : WithErr Text). r.0) line in
    let no_error = ap (λ (r : WithErr Text). r.1) line in
    let parts : split (text_of l) b' ' ≡ columns l =
      split-join b' ' l.load1
        (l.load5 ∷ l.load15 ∷ (l.running ++ (b'/' ∷ l.processes)) ∷ l.last_pid ∷ []) blanks in
    let halves = split-append b'/' l.running l.processes slash in
    (
      rw (measure_load, no_error, text, parts) refl,
      rw (measure_procs, no_error, text, parts, halves) refl,
    )
