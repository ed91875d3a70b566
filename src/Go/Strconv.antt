-- ===== src/Go/Strconv.antt =====
-- `strconv.ParseInt(s, 10, 64)`, as its source reads: a sign, then `ParseUint`, then the range.
use telemd.Base.{
  ℕ, ◌+◌, ◌-◌, ◌*◌, ◌/◌, ◌^◌, ◌≡◌, refl, Bool, true, false, ◌&&◌, ◌||◌, not, Option, none, some, [],
  ◌∷◌, Text, codes, ltb, leb, ◌==◌, if◌then◌else◌, Bool-cases, inl, inr, arith,
}
use telemd.Base.Int.{ℤ, pos, negsuc, sub_ℕ, IsInt64}

-- The errors that the program tells apart, and the texts of its own.
pub data Err : Type 0 where
  syntax range not_exist : Err
  -- Any other failure of the operating system.
  failure : Err
  -- `errors.New`
  message : Text → Err

-- A value with its error: Go returns both.
abbrev pub WithErr {ℓ} : Type ℓ → Type ℓ
WithErr A = A × Option Err

abbrev pub max_u64 : ℕ
max_u64 = 2 ^ 64 - 1

abbrev is_digit : ℕ → Bool
is_digit c = leb b'0' c && leb c b'9'

-- The loop of `ParseUint` behind the digits that made `n`; the test of the sum for overflow also
-- covers the wrap-around, since `n` is below the cutoff.
unfoldable pub parse_uint_from : ℕ → Text → ℕ × Option Err
parse_uint_from n [] = (n, none)
parse_uint_from n (c ∷ s) =
    let d = c - b'0' in
    let more = parse_uint_from (n * 10 + d) s in
    if not (is_digit c)
    then (0, some syntax)
    else if leb (max_u64 / 10 + 1) n || ltb max_u64 (n * 10 + d)
    then (max_u64, some range)
    else more

unfoldable pub parse_uint : Text → ℕ × Option Err
unfolding parse_uint_from
parse_uint [] = (0, some syntax)
parse_uint (c ∷ s) = parse_uint_from 0 (c ∷ s)

-- The second half of `ParseInt`.
unfoldable pub signed : Bool → ℕ × Option Err → WithErr ℤ
signed negative (n, some syntax) = (pos 0, some syntax)
signed false (n, _) = if leb (2 ^ 63) n then (pos (2 ^ 63 - 1), some range) else (pos n, none)
signed true (n, _) = if ltb (2 ^ 63) n then (negsuc (2 ^ 63 - 1), some range) else (sub_ℕ 0 n, none)

unfoldable pub parse_int : Text → WithErr ℤ
unfolding parse_uint signed
parse_int [] = (pos 0, some syntax)
parse_int (c ∷ s) =
    if c == b'+'
    then signed false (parse_uint s)
    else if c == b'-'
    then signed true (parse_uint s)
    else signed false (parse_uint (c ∷ s))

signed-IsInt64 : (negative : Bool) (r : ℕ × Option Err) → IsInt64 (signed negative r).0
unfolding signed
signed-IsInt64 negative (n, some syntax) = omega arith
signed-IsInt64 false (n, none) = ground arith
signed-IsInt64 false (n, some range) = ground arith
signed-IsInt64 false (n, some not_exist) = ground arith
signed-IsInt64 false (n, some failure) = ground arith
signed-IsInt64 false (n, some (message t)) = ground arith
signed-IsInt64 true (n, none) = ground arith
signed-IsInt64 true (n, some range) = ground arith
signed-IsInt64 true (n, some not_exist) = ground arith
signed-IsInt64 true (n, some failure) = ground arith
signed-IsInt64 true (n, some (message t)) = ground arith

-- Whatever the text, also under an error, the value fits.
pub parse_int-IsInt64 : (s : Text) → IsInt64 (parse_int s).0
unfolding parse_int
parse_int-IsInt64 [] = omega arith
parse_int-IsInt64 (c ∷ s) = elim (Bool-cases (c == b'+')) [
  | inl e ↦ rw e (signed-IsInt64 false (parse_uint s))
  | inr e ↦ rw e (elim (Bool-cases (c == b'-')) [
    | inl e' ↦ rw e' (signed-IsInt64 true (parse_uint s))
    | inr e' ↦ rw e' (signed-IsInt64 false (parse_uint (c ∷ s)))
  ])
]

parses :
    (parse_int (codes "-12") ≡ (negsuc 11, none))
    × (parse_int (codes "007") ≡ (pos 7, none))
    × (parse_int (codes "12 kB") ≡ (pos 0, some syntax))
    × (parse_int (codes "-") ≡ (pos 0, some syntax))
    × (parse_int (codes "9223372036854775807") ≡ (pos (2 ^ 63 - 1), none))
    × (parse_int (codes "9223372036854775808") ≡ (pos (2 ^ 63 - 1), some range))
    × (parse_int (codes "-9223372036854775808") ≡ (negsuc (2 ^ 63 - 1), none))
    × (parse_int (codes "99999999999999999999x") ≡ (pos (2 ^ 63 - 1), some range))
unfolding parse_int
parses = (refl, refl, refl, refl, refl, refl, refl, refl)
