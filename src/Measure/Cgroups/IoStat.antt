-- ===== src/Measure/Cgroups/IoStat.antt =====
-- The bytes read and written in an io.stat as the kernel writes it.
use telemd.Base.{
  ℕ, ◌+◌, ◌^◌, ◌<◌, ◌≡◌, refl, Option, none, some, List, [], ◌∷◌, ◌++◌, Text, codes, arith, All,
  map,
}
use telemd.Base.Int.{pos, wrap64, add64}
use telemd.Go.Strconv.{Err}
use telemd.Go.Strings.{split}
use telemd.Go.Split.{Lacks, split-append, split_lacking, Lacks-append}
use telemd.Go.Decimal.{format, format-Lacks, format-Lacks_above, parse_int-format}
use telemd.Host.{Host, Moment, scanned}
use telemd.Fileio.{parse_int64}
use telemd.Measure.Cgroups.{io_field, io_lines, read_io_stat, read_cgroupv2_blkio}

-- What a line says of a device; nothing is asked of what stands behind the two counts.
pub record IoLine : Type 0 where
  pub device : Text
  pub read : ℕ
  pub written : ℕ
  pub others : Text

abbrev pub text_of : IoLine → Text
text_of l =
    l.device
    ++ (b' '
        ∷ ((codes "rbytes=" ++ format l.read)
            ++ (b' ' ∷ ((codes "wbytes=" ++ format l.written) ++ (b' ' ∷ l.others)))))

-- No blank in the device's numbers, and counts that fit.
abbrev pub IsIoLine : IoLine → Type 0
IsIoLine l = Lacks b' ' l.device × (l.read < 2 ^ 63) × (l.written < 2 ^ 63)

abbrev pub all_read : List IoLine → ℕ
all_read [] = 0
all_read (l ∷ ls) = l.read + all_read ls

abbrev pub all_written : List IoLine → ℕ
all_written [] = 0
all_written (l ∷ ls) = l.written + all_written ls

split-text_of :
    (l : IoLine)
    → Lacks b' ' l.device
    → split (text_of l) b' '
      ≡ l.device
        ∷ (codes "rbytes=" ++ format l.read)
        ∷ (codes "wbytes=" ++ format l.written)
        ∷ split l.others b' '
split-text_of l h =
    rw
      (
        split-append b' ' l.device _ h,
        split-append b' ' (codes "rbytes=" ++ format l.read) _ (
            Lacks-append b' ' (codes "rbytes=") _ (omega arith)
              (format-Lacks b' ' l.read (omega arith))),
        split-append b' ' (codes "wbytes=" ++ format l.written) _ (
            Lacks-append b' ' (codes "wbytes=") _ (omega arith)
              (format-Lacks b' ' l.written (omega arith))),
      )
      refl

split_count :
    (name : Text) (n : ℕ)
    → Lacks b'=' name
    → split (name ++ (b'=' ∷ format n)) b'=' ≡ name ∷ format n ∷ []
split_count name n h =
    rw
      (
        split-append b'=' name (format n) h,
        split_lacking b'=' (format n) (format-Lacks_above b'=' n (omega arith)),
      )
      refl

parse_int64-format : (n : ℕ) → n < 2 ^ 63 → parse_int64 (format n) ≡ (pos n, none)
unfolding parse_int64
parse_int64-format n h = parse_int-format n h

-- Wrapping around early or late makes no difference.
add64_wrapped : (a b : ℕ) → add64 (wrap64 (pos a)) (wrap64 (pos b)) ≡ wrap64 (pos (a + b))
unfolding add64
add64_wrapped a b = ground arith

add64_count : (a b : ℕ) → add64 (wrap64 (pos a)) (pos b) ≡ wrap64 (pos (a + b))
unfolding add64
add64_count a b = ground arith

module _ (H : Host) where
  io_field-read :
      (l : IoLine) → Lacks b' ' l.device → io_field H (text_of l) 1 ≡ some (format l.read)
  unfolding io_field
  io_field-read l h =
      rw (split-text_of l h) (rw (split_count (codes "rbytes") l.read (omega arith)) refl)

  io_field-written :
      (l : IoLine) → Lacks b' ' l.device → io_field H (text_of l) 2 ≡ some (format l.written)
  unfolding io_field
  io_field-written l h =
      rw (split-text_of l h) (rw (split_count (codes "wbytes") l.written (omega arith)) refl)

  io_lines_from :
      (ls : List IoLine) (r w : ℕ)
      → All IsIoLine ls
      → io_lines H (map text_of ls) (wrap64 (pos r)) (wrap64 (pos w))
        ≡ some ((wrap64 (pos (r + all_read ls)), wrap64 (pos (w + all_written ls))), none)
  unfolding io_lines
  io_lines_from [] r w h =
      rw (let e : r + 0 ≡ r = omega arith in e, let e : w + 0 ≡ w = omega arith in e) refl
  io_lines_from (l ∷ ls) r w ((h, hr, hw), hs) =
      let rest = io_lines_from ls (r + l.read) (w + l.written) hs in
      let e : r + l.read + all_read ls ≡ r + (l.read + all_read ls) = omega arith in
      let e' : w + l.written + all_written ls ≡ w + (l.written + all_written ls) = omega arith in
      grind (
        arith,
        io_field-read l h,
        io_field-written l h,
        parse_int64-format l.read hr,
        parse_int64-format l.written hw,
        add64_count r l.read,
        add64_count w l.written,
        rest,
        e,
        e',
      )

  io_lines_lem :
      (ls : List IoLine)
      → All IsIoLine ls
      → io_lines H (map text_of ls) (pos 0) (pos 0)
        ≡ some ((wrap64 (pos (all_read ls)), wrap64 (pos (all_written ls))), none)
  io_lines_lem ls h =
      let e : wrap64 (pos 0) ≡ pos 0 = unfold wrap64 in refl in
      let e_read : 0 + all_read ls ≡ all_read ls = omega arith in
      let e_written : 0 + all_written ls ≡ all_written ls = omega arith in
      cc (io_lines_from ls 0 0 h)

  read_io_stat_lem :
      (m : Moment) (path : Text) (ls : List IoLine) (err : Option Err)
      → All IsIoLine ls
      → H.read_file m path ≡ scanned (map text_of ls) err
      → read_io_stat H m path
        ≡ some ((wrap64 (pos (all_read ls)), wrap64 (pos (all_written ls))), none)
  unfolding read_io_stat
  read_io_stat_lem m path ls err h e = ground (arith, e, io_lines_lem ls h)

  -- Of an io.stat that names for each device the bytes read and written, each count below 2^63,
  -- the sum of all counts is returned without an error, wrapped around to an int64; whatever else
  -- stands in the lines, and also if the file was not read to its end.
  pub read_cgroupv2_blkio-sum :
      (m : Moment) (folder : Text) (ls : List IoLine) (err : Option Err)
      → All IsIoLine ls
      → H.read_file m (folder ++ codes "/io.stat") ≡ scanned (map text_of ls) err
      → read_cgroupv2_blkio H m folder ≡ some (wrap64 (pos (all_read ls + all_written ls)), none)
  unfolding read_cgroupv2_blkio
  read_cgroupv2_blkio-sum m folder ls err h e =
      rw
        (
          read_io_stat_lem m (folder ++ codes "/io.stat") ls err h e,
          add64_wrapped (all_read ls) (all_written ls),
        )
        refl
