-- ===== src/Sysparse/Stat.antt =====
-- The first line of /proc/stat as the kernel writes it.
use telemd.Base.{
  ◌≡◌, refl, ap, true, none, some, leb, length, List, [], ◌∷◌, map, Text, codes, arith, All, Option,
}
use telemd.Go.Strconv.{Err, WithErr}
use telemd.Go.Strings.{join, trim_blanks}
use telemd.Go.Split.{Lacks, split-join}
use telemd.Go.Float.{Floats}
use telemd.Host.{Host, Moment, scanned}
use telemd.Fileio.Lines.{read_first_line_scanned}
use telemd.Sysparse.{read_cpu_util, parse_floats}

-- The times of all processors; those behind the fourth differ with the kernel.
pub record CpuLine : Type 0 where
  pub user : Text
  pub nice : Text
  pub system : Text
  pub idle : Text
  pub others : List Text

abbrev pub times : CpuLine → List Text
times l = l.user ∷ l.nice ∷ l.system ∷ l.idle ∷ l.others

-- There are two blanks behind the name.
abbrev pub text_of : CpuLine → Text
text_of l = join (codes "cpu" ∷ [] ∷ times l) (codes " ")

module _ (F : Floats) where
  -- Times that are numbers, without a blank in one of them or at the end.
  pub record IsCpuLine (l : CpuLine) : Type 0 where
    pub blanks : All (Lacks b' ') (times l)
    pub ends : trim_blanks (text_of l) ≡ text_of l
    pub numbers : All (λ v. (F.parse v).1 ≡ none) (times l)

  abbrev pub value : Text → F.Float
  value v = (F.parse v).0

  parse_floats_lem :
      (vs : List Text)
      → All (λ v. (F.parse v).1 ≡ none) vs
      → parse_floats F vs ≡ some (map value vs)
  unfolding parse_floats
  parse_floats_lem [] h = refl
  parse_floats_lem (v ∷ vs) (e, h) = rw (parse_floats, e, parse_floats_lem vs h) refl

  pub read_cpu_util_lem :
      (H : Host) (m : Moment) (l : CpuLine) (rest : List Text) (err : Option Err)
      → IsCpuLine l
      → H.read_file m (codes "/proc/stat") ≡ scanned (text_of l ∷ rest) err
      → read_cpu_util F H m ≡ some (map value (times l))
  unfolding read_cpu_util
  read_cpu_util_lem H m l rest err h e =
      let line = read_first_line_scanned H m (codes "/proc/stat") (text_of l) rest err e in
      let text = ap (λ (r : WithErr Text). r.0) line in
      let no_error = ap (λ (r : WithErr Text). r.1) line in
      let named : All (Lacks b' ') (codes "cpu" ∷ [] ∷ times l) =
        ((omega arith, (omega arith, (omega arith, tt))), (tt, h.blanks)) in
      let parts = split-join b' ' (codes "cpu") ([] ∷ times l) named in
      let enough : leb 2 (length (codes "cpu" ∷ [] ∷ times l)) ≡ true = ground arith in
      rw (read_cpu_util, no_error, text, h.ends, parts, enough)
        (parse_floats_lem (times l) h.numbers)
