-- ===== src/Go/Strings/Trim.antt =====
-- `strings.TrimSpace` at texts put together from blanks and words.
use telemd.Base.{
  ℕ, zero, suc, ◌≡◌, refl, ◌∙◌, ap, sym, append_assoc, false, [], ◌∷◌, ◌++◌, Text, All, replicate,
}
use telemd.Go.Strings.{is_space, trim_left, trim_right, trim_space}

-- No byte of space.
abbrev pub IsSolid : Text → Type 0
IsSolid = All (λ c. is_space c ≡ false)

trim_left_blanks :
    (n : ℕ) (s : Text) → trim_left is_space (replicate n b' ' ++ s) ≡ trim_left is_space s
unfolding trim_left
trim_left_blanks zero s = refl
trim_left_blanks (suc n) s = trim_left_blanks n s

trim_left_head : (c : ℕ) (s : Text) → is_space c ≡ false → trim_left is_space (c ∷ s) ≡ c ∷ s
unfolding trim_left
trim_left_head c s h = rw h refl

trim_left_solid : (s : Text) → IsSolid s → trim_left is_space s ≡ s
trim_left_solid [] _ = unfold trim_left in refl
trim_left_solid (c ∷ s) (h, _) = trim_left_head c s h

trim_right_solid : (s : Text) → IsSolid s → trim_right is_space s ≡ s
unfolding trim_right
trim_right_solid [] _ = refl
trim_right_solid (c ∷ []) (h, _) = rw h refl
trim_right_solid (c ∷ d ∷ s) (_, h) = rw (trim_right_solid (d ∷ s) h) refl

trim_right_append :
    (s : Text) (d : ℕ) (t : Text)
    → trim_right is_space (d ∷ t) ≡ d ∷ t
    → trim_right is_space (s ++ (d ∷ t)) ≡ s ++ (d ∷ t)
unfolding trim_right
trim_right_append [] d t h = h
trim_right_append (c ∷ []) d t h = rw h refl
trim_right_append (c ∷ c' ∷ s) d t h = rw (trim_right_append (c' ∷ s) d t h) refl

-- Blanks before a word.
pub trim_space_word : (n : ℕ) (s : Text) → IsSolid s → trim_space (replicate n b' ' ++ s) ≡ s
unfolding trim_space
trim_space_word n s h =
    ap (trim_right is_space) (trim_left_blanks n s ∙ trim_left_solid s h) ∙ trim_right_solid s h

-- Blanks before a word, anything, and a word at the end.
pub trim_space_words :
    (n c : ℕ) (s middle : Text) (d : ℕ) (t : Text)
    → is_space c ≡ false
    → IsSolid (d ∷ t)
    → trim_space (replicate n b' ' ++ (c ∷ (s ++ (middle ++ (d ∷ t)))))
      ≡ c ∷ (s ++ (middle ++ (d ∷ t)))
unfolding trim_space
trim_space_words n c s middle d t h k =
    let assoc : (c ∷ s ++ middle) ++ (d ∷ t) ≡ c ∷ (s ++ (middle ++ (d ∷ t))) =
      ap (λ l. c ∷ l) (append_assoc s middle (d ∷ t)) in
    ap (trim_right is_space) (
      trim_left_blanks n (c ∷ (s ++ (middle ++ (d ∷ t))))
      ∙ trim_left_head c (s ++ (middle ++ (d ∷ t))) h)
    ∙ (ap (trim_right is_space) (sym assoc)
        ∙ (trim_right_append (c ∷ s ++ middle) d t (trim_right_solid (d ∷ t) k) ∙ assoc))
