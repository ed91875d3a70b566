-- ===== src/Go/Decimal.antt =====
-- Decimal printing, `%d` of package fmt and `strconv.Itoa`, and the way back.
use telemd.Base.{
  ℕ, zero, suc, ◌+◌, ◌-◌, ◌*◌, ◌/◌, ◌%◌, ◌^◌, ◌≤◌, ◌<◌, ◌≡◌, refl, false, none, [], ◌∷◌, ◌++◌, Text,
  codes, arith, ◌==◌, if◌then◌else◌, Bool-cases, inl, inr, ◌∙◌, append_assoc, All, All-map,
}
use telemd.Go.Split.{Lacks}
use telemd.Base.Int.{ℤ, pos, negsuc, IsInt64}
use telemd.Go.Strconv.{max_u64, parse_uint_from, parse_uint, signed, parse_int}

-- The digits of a number, most significant first, before those given; one for each unit of fuel
-- at most, and a number is fuel enough for itself.
digits : ℕ → ℕ → Text → Text
digits zero n out = out
digits (suc f) n out =
    let more = digits f (n / 10) ((b'0' + n % 10) ∷ out) in if n == 0 then out else more

unfoldable pub format : ℕ → Text
unfolding digits
format n = if n == 0 then b'0' ∷ [] else digits n n []

unfoldable pub format_int : ℤ → Text
unfolding format
format_int (pos n) = format n
format_int (negsuc n) = b'-' ∷ format (suc n)

prints :
    (format 0 ≡ codes "0")
    × (format 1606436822 ≡ codes "1606436822")
    × (format_int (negsuc 11) ≡ codes "-12")
unfolding format_int
prints = (refl, refl, refl)

scan_last :
    (n : ℕ) (out : Text)
    → n ≤ max_u64
    → parse_uint_from (n / 10) ((b'0' + n % 10) ∷ out) ≡ parse_uint_from n out
unfolding parse_uint_from
scan_last n out h = ground arith

scan-digits :
    (f n : ℕ) (out : Text)
    → n ≤ f
    → n ≤ max_u64
    → parse_uint_from 0 (digits f n out) ≡ parse_uint_from n out
unfolding digits
scan-digits zero n out below h = rw (let e : n ≡ 0 = omega arith in e)
scan-digits (suc f) n out below h = elim (Bool-cases (n == 0)) [
  | inl e ↦ rw e (let e' : n ≡ 0 = ground arith in rw e')
  | inr e ↦ rw e (scan-digits f (n / 10) _ (ground arith) (omega arith) ∙ scan_last n out h)
]

-- The text begins with a digit, so with no sign.
abbrev StartsWithDigit : Text → Type 0
StartsWithDigit [] = ⊥
StartsWithDigit (c ∷ s) = (b'0' ≤ c) × (c ≤ b'9')

digits-StartsWithDigit :
    (f n : ℕ) (out : Text) → StartsWithDigit out → StartsWithDigit (digits f n out)
unfolding digits
digits-StartsWithDigit zero n out h = h
digits-StartsWithDigit (suc f) n out h = elim (Bool-cases (n == 0)) [
  | inl e ↦ rw e h
  | inr e ↦ rw e (digits-StartsWithDigit f (n / 10) _ (omega arith))
]

-- The digits of a positive number: one round, then the rest.
digits_pos : (n : ℕ) → 0 < n → digits n n [] ≡ digits (n - 1) (n / 10) ((b'0' + n % 10) ∷ [])
unfolding digits
digits_pos zero h = absurd (omega arith)
digits_pos (suc n) h = ground arith

format-StartsWithDigit : (n : ℕ) → StartsWithDigit (format n)
unfolding format
format-StartsWithDigit n = elim (Bool-cases (n == 0)) [
  | inl e ↦ rw e (omega arith)
  | inr e ↦
      rw (e, digits_pos n (ground arith)) (digits-StartsWithDigit (n - 1) (n / 10) _ (omega arith))
]

parse_uint_unsigned : (s : Text) → StartsWithDigit s → parse_uint s ≡ parse_uint_from 0 s
unfolding parse_uint
parse_uint_unsigned [] h = absurd h
parse_uint_unsigned (c ∷ s) h = refl

parse_int_unsigned : (s : Text) → StartsWithDigit s → parse_int s ≡ signed false (parse_uint s)
unfolding parse_int
parse_int_unsigned [] h = absurd h
parse_int_unsigned (c ∷ s) h = ground arith

parse_uint-format : (n : ℕ) → n ≤ max_u64 → parse_uint (format n) ≡ (n, none)
unfolding format
parse_uint-format n h =
    rw (parse_uint_unsigned (format n) (format-StartsWithDigit n)) (elim (Bool-cases (n == 0)) [
      | inl e ↦ rw e (unfold parse_uint_from in (let e' : n ≡ 0 = ground arith in rw e'))
      | inr e ↦ rw (e, scan-digits n n [] (omega arith) h) (unfold parse_uint_from in refl)
    ])

pub parse_int-format : (n : ℕ) → n < 2 ^ 63 → parse_int (format n) ≡ (pos n, none)
parse_int-format n h =
    rw (parse_int_unsigned (format n) (format-StartsWithDigit n), parse_uint-format n (omega arith))
      (unfold signed in ground arith)

-- Every int64 is read back from its decimal print.
pub parse_int-format_int : (a : ℤ) → IsInt64 a → parse_int (format_int a) ≡ (a, none)
unfolding format_int signed
parse_int-format_int (pos n) h = parse_int-format n h
parse_int-format_int (negsuc n) h =
    unfold parse_int in rw (parse_uint-format (suc n) (omega arith)) (ground arith)

-- The bytes of decimal digits.
abbrev pub IsDigit : ℕ → Type 0
IsDigit c = (b'0' ≤ c) × (c ≤ b'9')

digits-All : (f n : ℕ) (out : Text) → All IsDigit out → All IsDigit (digits f n out)
unfolding digits
digits-All zero n out h = h
digits-All (suc f) n out h = elim (Bool-cases (n == 0)) [
  | inl e ↦ rw e h
  | inr e ↦ rw e (digits-All f (n / 10) _ (omega arith, h))
]

pub format-All : (n : ℕ) → All IsDigit (format n)
unfolding format
format-All n = elim (Bool-cases (n == 0)) [
  | inl e ↦ rw e (omega arith, tt)
  | inr e ↦ rw e (digits-All n n [] tt)
]

-- A printed number is not empty.
pub format_cons : (n : ℕ) → (c : ℕ) × (s : Text) × (format n ≡ c ∷ s)
format_cons n = nonempty (format n) (format-StartsWithDigit n)
  where
    nonempty : (s : Text) → StartsWithDigit s → (c : ℕ) × (t : Text) × (s ≡ c ∷ t)
    nonempty [] h = absurd h
    nonempty (c ∷ s) h = (c, s, refl)

-- A printed number holds no byte below the digits: no blank, no dot, no slash.
pub format-Lacks : (sep n : ℕ) → sep < b'0' → Lacks sep (format n)
format-Lacks sep n low = All-map (λ c (h : IsDigit c). omega arith) (format n) (format-All n)

-- Nor one above them: no colon, no equals sign.
pub format-Lacks_above : (sep n : ℕ) → b'9' < sep → Lacks sep (format n)
format-Lacks_above sep n high = All-map (λ c (h : IsDigit c). omega arith) (format n) (format-All n)

digits-append : (f n : ℕ) (out : Text) → digits f n out ≡ digits f n [] ++ out
unfolding digits
digits-append zero n out = refl
digits-append (suc f) n out = elim (Bool-cases (n == 0)) [
  | inl e ↦ rw e
  | inr e ↦ rw (
    e,
    digits-append f (n / 10) ((b'0' + n % 10) ∷ out),
    digits-append f (n / 10) ((b'0' + n % 10) ∷ []),
    append_assoc,
  )
]

digits_fuel : (f g n : ℕ) (out : Text) → n ≤ f → n ≤ g → digits f n out ≡ digits g n out
unfolding digits
digits_fuel zero zero n out h k = refl
digits_fuel zero (suc g) n out h k = rw (let e : n ≡ 0 = omega arith in e)
digits_fuel (suc f) zero n out h k = rw (let e : n ≡ 0 = omega arith in e)
digits_fuel (suc f) (suc g) n out h k = elim (Bool-cases (n == 0)) [
  | inl e ↦ rw e
  | inr e ↦ rw e (digits_fuel f g (n / 10) _ (ground arith) (ground arith))
]

-- Ten times a positive number is printed with a zero behind it.
pub format_tenfold : (n : ℕ) → 0 < n → format (10 * n) ≡ format n ++ (b'0' ∷ [])
unfolding format
format_tenfold n h = rw (
  let e : (10 * n == 0) ≡ false = ground arith in e,
  let e : (n == 0) ≡ false = ground arith in e,
  digits_pos (10 * n) (omega arith),
  let e : 10 * n / 10 ≡ n = omega arith in e,
  let e : 10 * n % 10 ≡ 0 = omega arith in e,
  digits_fuel (10 * n - 1) n n (b'0' ∷ []) (omega arith) (omega arith),
  digits-append n n (b'0' ∷ []),
)
