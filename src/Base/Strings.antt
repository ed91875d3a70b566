-- ===== src/Base/Strings.antt =====
-- A Go string: its bytes.
use Prim.Native.Char.{code}
use Prim.Native.Nat.{ℕ}
use Prim.Native.String.{String}
use mathlib.Core.Path.{◌≡◌, refl}
use mathlib.Core.Logic.{ite, dite}
use mathlib.Core.Bool.{Bool, true, false}
use mathlib.Core.List.{List, [], ◌∷◌}
use native.Mathlib.Decide.{ℕ_discrete}
use native.Mathlib.Omega.{arith}

abbrev pub Text : Type 0
Text = List ℕ

-- The bytes of an ASCII literal.
abbrev pub codes : String → Text
codes String.[] = []
codes (String.◌∷◌ c s) = code c ∷ codes s

unfoldable pub text_dec : Discrete Text
unfolding ℕ_discrete
text_dec [] [] = yes refl
text_dec [] (y ∷ ys) = no (λ e. cc)
text_dec (x ∷ xs) [] = no (λ e. cc)
text_dec (x ∷ xs) (y ∷ ys) =
    let rest = text_dec xs ys in
    dite (ℕ_discrete x y) (λ p. dite rest (λ q. yes (cc)) (λ n. no (λ e. n (cc))))
      (λ n. no (λ e. n (cc)))

-- `a == b` on strings.
abbrev pub equal : Text → Text → Bool
equal a b = ite (text_dec a b) true false

pub equal_refl : (a : Text) → equal a a ≡ true
equal_refl a = ground arith

pub equal-eq : (a b : Text) → equal a b ≡ true → a ≡ b
equal-eq a b h = ground arith
