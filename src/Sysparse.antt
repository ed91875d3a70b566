-- ===== src/Sysparse.antt =====
-- internal/telemd/sysparse.go: what the program reads under /proc and /sys. A result in `Option`
-- is `none` where the code panics: on an index out of range, or in `check`.
pub mod Stat
pub mod Containers
pub mod Processes
pub mod Listings
pub mod Meminfo
use telemd.Base.{
  ℕ, zero, suc, Bool, true, false, ◌&&◌, ◌||◌, not, Option, none, some, List, [], ◌∷◌, ◌++◌, Text,
  codes, equal, if◌then◌else◌, ◌>>=◌, get_elem?, length, drop, ◌==◌, leb, ◌⊎◌, inl, inr,
}
use telemd.Base.Int.{ℤ, pos, sub64}
use telemd.Base.Dict.{Dict}
use telemd.Base.Dict
use telemd.Go.Strconv.{Err, message, WithErr, parse_int}
use telemd.Go.Decimal.{format}
use telemd.Go.Strings.{split, fields, trim_space, trim_blanks, trim_suffix}
use telemd.Go.Float.{Floats}
use telemd.Host.{Host, Moment, next, Scan, not_opened, scanned}
use telemd.Fileio.{visit_lines, read_first_line, parse_int64, parse_int64_array}
use telemd.Cfg.Devices.{exec_command}

unfoldable pub read_block_device_stats : Host → Moment → Text → WithErr (List ℤ)
read_block_device_stats H m dev =
    let (line, err) = read_first_line H m (codes "/sys/block/" ++ (dev ++ codes "/stat")) in
    elim err [ some e ↦ ([], some e) | none ↦ parse_int64_array (fields line) ]

-- The numbers of the words; `check` panics at the first that is none.
pub parse_floats : (F : Floats) → List Text → Option (List F.Float)
parse_floats F [] = some []
parse_floats F (v ∷ vs) = elim (F.parse v).1 [
  | some err ↦ none
  | none ↦ do some ((F.parse v).0 ∷ (← parse_floats F vs))
]

pub read_cpu_util : (F : Floats) → Host → Moment → Option (List F.Float)
unfolding parse_floats
read_cpu_util F H m =
    let (line, err) = read_first_line H m (codes "/proc/stat") in
    let parts = split (trim_blanks line) b' ' in
    elim err [
      | some e ↦ none
      | none ↦ if leb 2 (length parts) then parse_floats F (drop 2 parts) else none
    ]

-- The visitor of `readMeminfo`.
pub meminfo_line : Text → Dict Text → Dict Text × Bool
meminfo_line line vals = elim (split line b':') [
  | k ∷ v ∷ [] ↦ (Dict.insert (trim_space k) (trim_space v) vals, true)
  | _ ↦ (vals, true)
]

pub read_meminfo : Host → Moment → Option (Dict Text)
unfolding meminfo_line visit_lines
read_meminfo H m =
    let (vals, err) = visit_lines meminfo_line H m (codes "/proc/meminfo") [] in
    elim err [ none ↦ some vals | some e ↦ none ]

-- The first part of a split is always there.
abbrev pub first_part : List Text → Text
first_part [] = []
first_part (p ∷ _) = p

pub parse_meminfo_string : Text → WithErr ℤ
parse_meminfo_string size_string = parse_int (first_part (split size_string b' '))

unfoldable pub read_mem_total : Host → Moment → Option (WithErr ℤ)
unfolding read_meminfo parse_meminfo_string
read_mem_total H m = do
  vals ← read_meminfo H m
  some (elim (Dict.lookup (codes "MemTotal") vals) [
    | none ↦ (pos 0, some (message (codes "MemTotal not found")))
    | some val ↦ parse_meminfo_string val
  ])

pub read_uptime : (F : Floats) → Host → Moment → WithErr F.Float
read_uptime F H m =
    let (line, err) = read_first_line H m (codes "/proc/uptime") in
    elim err [
      | some e ↦ (F.zero, some e)
      | none ↦ elim (split line b' ') [
        | uptime ∷ idle ∷ [] ↦ F.parse uptime
        | _ ↦
            (F.zero, some (message (codes "Unexpected number of fields in /proc/uptime: " ++ line)))
      ]
    ]

unfoldable pub boot_time : (F : Floats) → Host → Moment → WithErr ℤ
unfolding read_uptime
boot_time F H m =
    let (uptime, err) = read_uptime F H m in
    elim err [
      | some e ↦ (pos 0, some e)
      | none ↦ (sub64 (H.now (next m)).sec (F.to_int uptime), none)
    ]

-- Pressure stall information.
module _ (F : Floats) where
  pub record PsiMeasure : Type 0 where
    pub avg10 : F.Float
    pub avg60 : F.Float
    pub avg300 : F.Float
    pub total : F.Float

  -- The two pointers; `Some` is never nil.
  pub record PsiResult : Type 0 where
    pub some_measure : PsiMeasure
    pub full_measure : Option PsiMeasure

  -- The number behind the first `=`; an error of the conversion is dropped.
  pub psi_value : List Text → ℕ → Option F.Float
  psi_value words i = do
    part ← get_elem? words i
    value ← get_elem? (split part b'=') 1
    some (F.parse value).0

  pub read_psi_measure : Text → Option PsiMeasure
  unfolding psi_value
  read_psi_measure line = do
    a ← psi_value (fields line) 1
    b ← psi_value (fields line) 2
    c ← psi_value (fields line) 3
    d ← psi_value (fields line) 4
    some (record { avg10 = a; avg60 = b; avg300 = c; total = d })

  -- An empty file gives an empty first line.
  psi_lines : List Text → Option PsiResult
  psi_lines [] = do a ← read_psi_measure []; some (record { some_measure = a; full_measure = none })
  psi_lines (line ∷ []) = do
    a ← read_psi_measure line
    some (record { some_measure = a; full_measure = none })
  psi_lines (line ∷ line' ∷ _) = do
    a ← read_psi_measure line
    b ← read_psi_measure line'
    some (record { some_measure = a; full_measure = some b })

  psi_scan : Scan → Option (Err ⊎ PsiResult)
  psi_scan (not_opened err) = some (inl err)
  psi_scan (scanned lines err) = do some (inr (← psi_lines lines))

  unfoldable pub read_psi_result : Host → Moment → Text → Option (Err ⊎ PsiResult)
  unfolding psi_scan psi_lines read_psi_measure
  read_psi_result H m resource = psi_scan (H.read_file m (codes "/proc/pressure/" ++ resource))

-- The command is a text for the shell and awk, which are not modelled.
unfoldable pub parse_iw : Host → Moment → Text → Text → ℕ → WithErr Text
unfolding exec_command format
parse_iw H m device attribute index = exec_command H m (
    codes "iw dev "
    ++ (device
        ++ (codes " link | awk -F '[ ]' '/"
            ++ (attribute ++ (codes ":/{print $" ++ (format index ++ codes "}'"))))))
