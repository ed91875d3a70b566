-- ===== src/Go/Strings.antt =====
-- Package strings, on bytes. A separator is one byte, as in every call of the program. Space is
-- ASCII space: of the other Unicode spaces none is a single byte below 0x80.
pub mod Trim
use telemd.Base.{
  ℕ, ◌-◌, Bool, true, false, ◌&&◌, ◌||◌, Option, none, some, List, [], ◌∷◌, ◌++◌, Text, codes,
  equal, text_dec, leb, ◌==◌, if◌then◌else◌, length, take, drop, ◌≡◌, refl,
}

unfoldable pub cons_head : ℕ → List Text → List Text
cons_head c [] = (c ∷ []) ∷ []
cons_head c (p ∷ ps) = (c ∷ p) ∷ ps

-- `strings.Split`
unfoldable pub split : Text → ℕ → List Text
unfolding cons_head
split [] sep = [] ∷ []
split (c ∷ s) sep = let rest = split s sep in if c == sep then [] ∷ rest else cons_head c rest

-- `strings.Join`
unfoldable pub join : List Text → Text → Text
join [] sep = []
join (p ∷ []) sep = p
join (p ∷ q ∷ ps) sep = p ++ (sep ++ join (q ∷ ps) sep)

abbrev pub is_space : ℕ → Bool
is_space c = c == 32 || (leb 9 c && leb c 13)

flush : Text → List Text → List Text
flush [] rest = rest
flush (c ∷ cs) rest = (c ∷ cs) ∷ rest

-- The words of the text, the first of which continues the given one.
fields_from : Text → Text → List Text
unfolding flush
fields_from word [] = flush word []
fields_from word (c ∷ s) =
    let cut = flush word (fields_from [] s) in
    let more = fields_from (word ++ (c ∷ [])) s in if is_space c then cut else more

-- `strings.Fields`
unfoldable pub fields : Text → List Text
unfolding fields_from
fields s = fields_from [] s

module _ (drops : ℕ → Bool) where
  trim_left : Text → Text
  trim_left [] = []
  trim_left (c ∷ s) = let rest = trim_left s in if drops c then rest else c ∷ s

  trim_right : Text → Text
  trim_right [] = []
  trim_right (c ∷ s) = elim (trim_right s) [
    | [] ↦ if drops c then [] else c ∷ []
    | d ∷ ds ↦ c ∷ d ∷ ds
  ]

-- `strings.TrimSpace`
pub trim_space : Text → Text
unfolding trim_left trim_right
trim_space s = trim_right is_space (trim_left is_space s)

-- `strings.Trim(s, " ")`
unfoldable pub trim_blanks : Text → Text
unfolding trim_left trim_right
trim_blanks s = trim_right (λ c. c == 32) (trim_left (λ c. c == 32) s)

-- What stands behind a prefix.
pub after_prefix : Text → Text → Option Text
after_prefix s [] = some s
after_prefix [] (p ∷ ps) = none
after_prefix (c ∷ s) (p ∷ ps) = let rest = after_prefix s ps in if c == p then rest else none

pub has_prefix : Text → Text → Bool
unfolding after_prefix
has_prefix s p = elim (after_prefix s p) [ none ↦ false | some _ ↦ true ]

pub trim_prefix : Text → Text → Text
unfolding after_prefix
trim_prefix s p = elim (after_prefix s p) [ none ↦ s | some rest ↦ rest ]

-- `strings.TrimSuffix`: the text up to the place where exactly the suffix is left.
pub trim_suffix : Text → Text → Text
trim_suffix [] suffix = []
trim_suffix (c ∷ s) suffix =
    let rest = trim_suffix s suffix in if equal (c ∷ s) suffix then [] else c ∷ rest

unfoldable pub contains : Text → Text → Bool
unfolding has_prefix
contains [] p = has_prefix [] p
contains (c ∷ s) p = has_prefix (c ∷ s) p || contains s p

-- `s[i:j]`; `none` is the panic of an index out of range.
unfoldable pub slice : Text → ℕ → ℕ → Option Text
slice s i j = if leb i j && leb j (length s) then some (take (j - i) (drop i s)) else none

split_line : split (codes "a b  c") 32 ≡ codes "a" ∷ codes "b" ∷ [] ∷ codes "c" ∷ []
unfolding split
split_line = refl

fields_line : fields (codes "  a b\t  c") ≡ codes "a" ∷ codes "b" ∷ codes "c" ∷ []
unfolding fields
fields_line = refl

trims :
    (trim_space (codes " a b\n ") ≡ codes "a b")
    × (trim_blanks (codes "  a\n ") ≡ codes "a\n")
    × (trim_suffix (codes "x.scope") (codes ".scope") ≡ codes "x")
    × (trim_prefix (codes "docker-x") (codes "docker-") ≡ codes "x")
    × (contains (codes "1:cpu:/docker/x") (codes "docker") ≡ true)
    × (slice (codes "abcdef") 1 3 ≡ some (codes "bc"))
    × (slice (codes "abc") 0 12 ≡ none)
unfolding trim_space trim_blanks trim_suffix trim_prefix contains slice text_dec
trims = (refl, refl, refl, refl, refl, refl, refl)
