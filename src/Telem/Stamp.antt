-- ===== src/Telem/Stamp.antt =====
-- What the time stamp of a telemetry says.
use telemd.Base.{
  ℕ, zero, suc, ◌+◌, ◌*◌, ◌%◌, ◌^◌, ◌≤◌, ◌<◌, ◌≡◌, refl, none, some, [], ◌∷◌, ◌++◌, Text, arith,
  ◌∙◌, map, append_assoc,
}
use telemd.Base.Int.{pos}
use native.Mathlib.Nat.{mul-add-mod_self_left, mod-eq_of_lt}
use telemd.Go.Strings.{split}
use telemd.Go.Split.{split-append, split_lacking}
use telemd.Go.Strconv.{parse_int}
use telemd.Go.Decimal.{format, format_int, format-Lacks, format_tenfold, parse_int-format}
use telemd.Go.Time.{Time, unix_nano, rem}
use telemd.Telem.{unix_time_string}

abbrev pub at : ℕ → ℕ → Time
at s n = record { sec = pos s; nsec = n }

unix_nano_pos : (s n : ℕ) → s * 10 ^ 9 + n < 2 ^ 63 → unix_nano (at s n) ≡ pos (s * 10 ^ 9 + n)
unfolding unix_nano
unix_nano_pos s n h = ground arith

-- From September 2001 on the remainder by the second is the number of nanoseconds.
nano_mod_sec : (s n : ℕ) → 10 ^ 9 ≤ s → n < 10 ^ 9 → (s * 10 ^ 9 + n) % s ≡ n
nano_mod_sec s n h k = mul-add-mod_self_left s (10 ^ 9) n ∙ mod-eq_of_lt (omega arith)

rem_pos : (a d : ℕ) → 0 < d → rem (pos a) (pos d) ≡ some (pos (a % d))
unfolding rem
rem_pos a zero h = absurd (omega arith)
rem_pos a (suc d) h = refl

rem-unix_nano :
    (s n : ℕ)
    → 10 ^ 9 ≤ s
    → n < 10 ^ 9
    → s * 10 ^ 9 + n < 2 ^ 63
    → rem (unix_nano (at s n)) (pos s) ≡ some (pos n)
rem-unix_nano s n h k l =
    rw (unix_nano_pos s n l, rem_pos (s * 10 ^ 9 + n) s (omega arith), nano_mod_sec s n h k)

pub unix_time_string_lem :
    (s n : ℕ)
    → 10 ^ 9 ≤ s
    → n < 10 ^ 9
    → s * 10 ^ 9 + n < 2 ^ 63
    → unix_time_string (at s n) ≡ some (format s ++ (b'.' ∷ format n))
unfolding unix_time_string format_int
unix_time_string_lem s n h k l = rw (rem-unix_nano s n h k l, unix_time_string)

-- From 2001 to 2262 the stamp of a time has two parts with a dot between them, and the parts are
-- read back as the seconds and the nanoseconds: different times have different stamps.
pub stamp_parts :
    (s n : ℕ)
    → 10 ^ 9 ≤ s
    → n < 10 ^ 9
    → s * 10 ^ 9 + n < 2 ^ 63
    → (stamp : Text) × (unix_time_string (at s n) ≡ some stamp)
      × (map parse_int (split stamp b'.') ≡ (pos s, none) ∷ (pos n, none) ∷ [])
stamp_parts s n h k l = (
  format s ++ (b'.' ∷ format n),
  unix_time_string_lem s n h k l,
  rw
      (
        split-append b'.' (format s) (format n) (format-Lacks b'.' s (omega arith)),
        split_lacking b'.' (format n) (format-Lacks b'.' n (omega arith)),
      )
      (cc (parse_int-format s (omega arith), parse_int-format n (omega arith))),
)

-- But the nanoseconds are not padded: a time whose nanoseconds are ten times those of another in
-- the same second has the other's stamp with a zero behind it, so that as decimal numbers the two
-- stamps are one.
pub stamp_tenfold :
    (s n : ℕ)
    → 10 ^ 9 ≤ s
    → 0 < n
    → 10 * n < 10 ^ 9
    → s * 10 ^ 9 + 10 * n < 2 ^ 63
    → (stamp : Text) × (unix_time_string (at s n) ≡ some stamp)
      × (unix_time_string (at s (10 * n)) ≡ some (stamp ++ (b'0' ∷ [])))
stamp_tenfold s n h k l m = (
  format s ++ (b'.' ∷ format n),
  unix_time_string_lem s n h (omega arith) (omega arith),
  rw (unix_time_string_lem s (10 * n) h l m, format_tenfold n k, append_assoc),
)
