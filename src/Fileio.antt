-- ===== src/Fileio.antt =====
-- internal/telemd/fileio.go: files by their lines, and numbers in them.
pub mod Lines
use telemd.Base.{
  Bool, true, false, Option, none, some, List, [], ◌∷◌, Text, map, if◌then◌else◌, Bool-cases, inl,
  inr,
}
use telemd.Base.Int.{ℤ, pos, negsuc}
use telemd.Go.Strconv.{Err, not_exist, WithErr, parse_int}
use telemd.Host.{Host, Moment, Scan, not_opened, scanned}

-- The loop of `visitLines` over the scanner: a visitor updates its variables and says whether to
-- go on. The scanner has an error only where it was read to its end.
module _ {ℓ} {S : Type ℓ} (visitor : Text → S → S × Bool) where
  unfoldable pub visit_scanned : List Text → Option Err → S → S × Option Err
  visit_scanned [] err s = (s, err)
  visit_scanned (line ∷ lines) err s =
      let more = visit_scanned lines err (visitor line s).0 in
      if (visitor line s).1 then more else ((visitor line s).0, none)

  pub visit_scan : Scan → S → S × Option Err
  visit_scan (not_opened err) s = (s, some err)
  visit_scan (scanned lines err) s = visit_scanned lines err s

  unfoldable pub visit_lines : Host → Moment → Text → S → S × Option Err
  unfolding visit_scan visit_scanned
  visit_lines H m path s = visit_scan (H.read_file m path) s

-- What each call of a visitor keeps, the loop keeps.
module _ {ℓ κ} {S : Type ℓ} (P : S → Type κ) (visitor : Text → S → S × Bool)
    (keeps : (line : Text) (s : S) → P s → P (visitor line s).0) where
  visit_scanned_keeps :
      (lines : List Text) (err : Option Err) (s : S) → P s → P (visit_scanned visitor lines err s).0
  unfolding visit_scanned
  visit_scanned_keeps [] err s h = h
  visit_scanned_keeps (line ∷ lines) err s h = elim (Bool-cases (visitor line s).1) [
    | inl e ↦ rw e (visit_scanned_keeps lines err (visitor line s).0 (keeps line s h))
    | inr e ↦ rw e (keeps line s h)
  ]

  visit_scan_keeps : (scan : Scan) (s : S) → P s → P (visit_scan visitor scan s).0
  unfolding visit_scan
  visit_scan_keeps (not_opened err) s h = h
  visit_scan_keeps (scanned lines err) s h = visit_scanned_keeps lines err s h

  pub visit_lines_keeps :
      (H : Host) (m : Moment) (path : Text) (s : S) → P s → P (visit_lines visitor H m path s).0
  unfolding visit_lines
  visit_lines_keeps H m path s h = visit_scan_keeps (H.read_file m path) s h

unfoldable pub parse_int64 : Text → WithErr ℤ
unfolding parse_int
parse_int64 str = parse_int str

-- The numbers up to the first error; the rest of the slice keeps its zeros.
unfoldable pub parse_int64_array : List Text → WithErr (List ℤ)
parse_int64_array [] = ([], none)
parse_int64_array (s ∷ arr) =
    let (v, err) = parse_int64 s in
    let (vs, err') = parse_int64_array arr in
    elim err [ none ↦ (v ∷ vs, err') | some e ↦ (v ∷ map (λ _. pos 0) arr, some e) ]

first_of_scan : Scan → WithErr Text
first_of_scan (not_opened err) = ([], some err)
first_of_scan (scanned [] err) = ([], err)
first_of_scan (scanned (line ∷ _) err) = (line, none)

unfoldable pub read_first_line : Host → Moment → Text → WithErr Text
unfolding first_of_scan
read_first_line H m path = first_of_scan (H.read_file m path)

unfoldable pub read_line_and_parse_int : Host → Moment → Text → WithErr ℤ
unfolding read_first_line
read_line_and_parse_int H m path = elim (read_first_line H m path).1 [
  | some err ↦ (negsuc 0, some err)
  | none ↦ parse_int (read_first_line H m path).0
]

-- `os.IsNotExist`
abbrev pub is_not_exist : Option Err → Bool
is_not_exist (some not_exist) = true
is_not_exist _ = false

unfoldable pub file_dir_exists : Host → Moment → Text → Bool
file_dir_exists H m filename = if is_not_exist (H.stat m filename) then false else true
