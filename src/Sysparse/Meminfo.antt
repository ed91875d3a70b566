-- ===== src/Sysparse/Meminfo.antt =====
-- /proc/meminfo as the kernel writes it, read back.
use mathlib.Core.Path.{subst}
use mathlib.Core.Option
use mathlib.Core.Option.{or_else}
use telemd.Base.{
  ℕ, ◌<◌, ◌^◌, ◌≡◌, refl, ap, ◌∙◌, Bool, true, false, Option, none, some, List, [], ◌∷◌, ◌++◌, Text,
  codes, arith, All, All-map, map, replicate, equal, if◌then◌else◌, some-inj, zero, suc, append-nil,
}
use telemd.Base.Int.{pos}
use telemd.Base.Dict.{Dict}
use telemd.Base.Dict
use telemd.Go.Strconv.{parse_int}
use telemd.Go.Strings.{split, trim_space}
use telemd.Go.Strings.Trim.{IsSolid, trim_space_word, trim_space_words}
use telemd.Go.Split.{Lacks, split-append, split_lacking, Lacks-append}
use telemd.Go.Decimal.{
  format, IsDigit, format-All, format_cons, format-Lacks, format-Lacks_above, parse_int-format,
}
use telemd.Host.{Host, Moment, scanned}
use telemd.Fileio.{visit_scanned}
use telemd.Sysparse.{meminfo_line, read_meminfo, parse_meminfo_string, first_part}

-- A line: a name, blanks, and an amount, mostly in kB.
pub record MemLine : Type 0 where
  pub key : Text
  pub blanks : ℕ
  pub amount : ℕ
  pub in_kb : Bool

abbrev pub unit : Bool → Text
unit true = codes " kB"
unit false = []

abbrev pub value_text : MemLine → Text
value_text l = format l.amount ++ unit l.in_kb

abbrev pub text_of : MemLine → Text
text_of l = l.key ++ (b':' ∷ (replicate l.blanks b' ' ++ value_text l))

-- A name without space and colon, and an amount that fits.
abbrev pub IsMemLine : MemLine → Type 0
IsMemLine l = IsSolid l.key × Lacks b':' l.key × (l.amount < 2 ^ 63)

-- The last line with a name.
unfoldable pub last_line : Text → List MemLine → Option MemLine
last_line key [] = none
last_line key (l ∷ ls) = or_else (last_line key ls) (if equal l.key key then some l else none)

format-IsSolid : (n : ℕ) → IsSolid (format n)
format-IsSolid n = All-map (λ c (h : IsDigit c). ground arith) (format n) (format-All n)

replicate-Lacks : (n : ℕ) → Lacks b':' (replicate n b' ')
replicate-Lacks zero = tt
replicate-Lacks (suc n) = (omega arith, replicate-Lacks n)

unit-Lacks : (in_kb : Bool) → Lacks b':' (unit in_kb)
unit-Lacks true = omega arith
unit-Lacks false = tt

trim_value :
    (blanks n : ℕ) (in_kb : Bool)
    → trim_space (replicate blanks b' ' ++ (format n ++ unit in_kb)) ≡ format n ++ unit in_kb
trim_value blanks n true =
    let (c, s, e) = format_cons n in
    let h : IsSolid (c ∷ s) = subst IsSolid e (format-IsSolid n) in
    rw e (trim_space_words blanks c s (b' ' ∷ []) b'k' (b'B' ∷ []) h.0 (refl, (refl, tt)))
trim_value blanks n false =
    rw (append-nil (format n)) (trim_space_word blanks (format n) (format-IsSolid n))

split-text_of :
    (l : MemLine)
    → Lacks b':' l.key
    → split (text_of l) b':' ≡ l.key ∷ (replicate l.blanks b' ' ++ value_text l) ∷ []
split-text_of l h =
    split-append b':' l.key _ h
    ∙ ap (λ r. l.key ∷ r)
        (split_lacking b':' _ (
          Lacks-append b':' (replicate l.blanks b' ') _ (replicate-Lacks l.blanks) (
            Lacks-append b':' (format l.amount) _ (format-Lacks_above b':' l.amount (omega arith))
              (unit-Lacks l.in_kb))))

meminfo_line-split :
    (line k v : Text) (vals : Dict Text)
    → split line b':' ≡ k ∷ v ∷ []
    → meminfo_line line vals ≡ (Dict.insert (trim_space k) (trim_space v) vals, true)
unfolding meminfo_line
meminfo_line-split line k v vals h = ground (arith, h)

meminfo_line-text_of :
    (l : MemLine) (vals : Dict Text)
    → IsMemLine l
    → meminfo_line (text_of l) vals ≡ (Dict.insert l.key (value_text l) vals, true)
meminfo_line-text_of l vals (solid, lacks, _) =
    meminfo_line-split (text_of l) l.key (replicate l.blanks b' ' ++ value_text l) vals
      (split-text_of l lacks)
    ∙ (λ i. (
      Dict.insert (trim_space_word 0 l.key solid i) (trim_value l.blanks l.amount l.in_kb i) vals,
      true,
    ))

pick :
    (later : Option MemLine) (here : Bool) (l : MemLine) (before : Option Text)
    → or_else (Option.map value_text later) (if here then some (value_text l) else before)
      ≡ or_else (Option.map value_text (or_else later (if here then some l else none))) before
unfolding or_else
pick none true l before = refl
pick none false l before = refl
pick (some l') here l before = refl

-- The table behind the lines, looked up.
scan-last_line :
    (ls : List MemLine) (key : Text) (vals : Dict Text)
    → All IsMemLine ls
    → Dict.lookup key (visit_scanned meminfo_line (map text_of ls) none vals).0
      ≡ or_else (Option.map value_text (last_line key ls)) (Dict.lookup key vals)
unfolding visit_scanned last_line or_else
scan-last_line [] key vals h = refl
scan-last_line (l ∷ ls) key vals (h, hs) = rw (meminfo_line-text_of l vals h) (
    scan-last_line ls key (Dict.insert l.key (value_text l) vals) hs
    ∙ (ap (or_else (Option.map value_text (last_line key ls)))
          (Dict.lookup-insert l.key key (value_text l) vals)
        ∙ pick (last_line key ls) (equal l.key key) l (Dict.lookup key vals)))

scan-none :
    (ls : List MemLine) (vals : Dict Text)
    → All IsMemLine ls
    → (visit_scanned meminfo_line (map text_of ls) none vals).1 ≡ none
unfolding visit_scanned
scan-none [] vals h = refl
scan-none (l ∷ ls) vals (h, hs) = rw (meminfo_line-text_of l vals h) (scan-none ls _ hs)

first_part-split :
    (in_kb : Bool) (s : Text) → Lacks b' ' s → first_part (split (s ++ unit in_kb) b' ') ≡ s
first_part-split true s h = ap first_part (split-append b' ' s (codes "kB") h)
first_part-split false s h = rw (append-nil s) (ap first_part (split_lacking b' ' s h))

pub parse_value :
    (l : MemLine) → IsMemLine l → parse_meminfo_string (value_text l) ≡ (pos l.amount, none)
unfolding parse_meminfo_string
parse_value l (_, _, h) =
    ap parse_int
      (first_part-split l.in_kb (format l.amount) (format-Lacks b' ' l.amount (omega arith)))
    ∙ parse_int-format l.amount h

read_meminfo-table :
    (H : Host) (m : Moment) (ls : List MemLine)
    → All IsMemLine ls
    → H.read_file m (codes "/proc/meminfo") ≡ scanned (map text_of ls) none
    → read_meminfo H m ≡ some (visit_scanned meminfo_line (map text_of ls) none []).0
unfolding read_meminfo
read_meminfo-table H m ls h e = ground (arith, e, scan-none ls [] h)

or_else-lookup : (o : Option Text) (key : Text) → or_else o (Dict.lookup key []) ≡ o
unfolding or_else Dict.lookup
or_else-lookup none key = refl
or_else-lookup (some v) key = refl

-- What is read from a file of such lines has, under each name, the value of its last line.
pub read_meminfo_lem :
    (H : Host) (m : Moment) (ls : List MemLine)
    → All IsMemLine ls
    → H.read_file m (codes "/proc/meminfo") ≡ scanned (map text_of ls) none
    → (vals : Dict Text) × (read_meminfo H m ≡ some vals)
      × ((key : Text) → Dict.lookup key vals ≡ Option.map value_text (last_line key ls))
read_meminfo_lem H m ls h e = (
  (visit_scanned meminfo_line (map text_of ls) none []).0,
  read_meminfo-table H m ls h e,
  λ key. scan-last_line ls key [] h ∙ or_else-lookup (Option.map value_text (last_line key ls)) key,
)

either-IsMemLine :
    (later : Option MemLine) (here : Bool) (l' l : MemLine)
    → (later ≡ some l → IsMemLine l)
    → IsMemLine l'
    → or_else later (if here then some l' else none) ≡ some l
    → IsMemLine l
unfolding or_else
either-IsMemLine none true l' l k h e = subst IsMemLine (some-inj e) h
either-IsMemLine none false l' l k h e = absurd cc
either-IsMemLine (some l'') here l' l k h e = k e

pub last_line-IsMemLine :
    (key : Text) (ls : List MemLine) (l : MemLine)
    → All IsMemLine ls
    → last_line key ls ≡ some l
    → IsMemLine l
unfolding last_line
last_line-IsMemLine key [] l h e = cc
last_line-IsMemLine key (l' ∷ ls) l (h, hs) e =
    either-IsMemLine (last_line key ls) (equal l'.key key) l' l (last_line-IsMemLine key ls l hs) h
      e

-- The value that is looked up under a name, parsed.
pub lookup_value :
    (vals : Dict Text) (key : Text) (ls : List MemLine) (l : MemLine)
    → Dict.lookup key vals ≡ Option.map value_text (last_line key ls)
    → last_line key ls ≡ some l
    → Dict.lookup key vals ≡ some (value_text l)
lookup_value vals key ls l h e = h ∙ ap (Option.map value_text) e
