-- ===== src/Go/Split.antt =====
-- `strings.Split` at texts put together from parts that lack the separator.
use telemd.Base.{ℕ, ◌≡◌, refl, ◌≢◌, List, [], ◌∷◌, ◌++◌, Text, arith, All}
use telemd.Go.Strings.{split, cons_head, join}

abbrev pub Lacks : ℕ → Text → Type 0
Lacks b = All (λ c. c ≢ b)

split_at_sep : (sep : ℕ) (s : Text) → split (sep ∷ s) sep ≡ [] ∷ split s sep
unfolding split
split_at_sep sep s = ground arith

split_other : (sep c : ℕ) (s : Text) → c ≢ sep → split (c ∷ s) sep ≡ cons_head c (split s sep)
unfolding split
split_other sep c s h = ground arith

-- A part, the separator and a rest: the part comes first.
pub split-append :
    (sep : ℕ) (p rest : Text) → Lacks sep p → split (p ++ (sep ∷ rest)) sep ≡ p ∷ split rest sep
split-append sep [] rest h = split_at_sep sep rest
split-append sep (c ∷ p) rest (hc, hp) =
    rw (split_other sep c (p ++ (sep ∷ rest)) hc, split-append sep p rest hp)
      (unfold cons_head in refl)

pub split_lacking : (sep : ℕ) (p : Text) → Lacks sep p → split p sep ≡ p ∷ []
split_lacking sep [] h = unfold split in refl
split_lacking sep (c ∷ p) (hc, hp) =
    rw (split_other sep c p hc, split_lacking sep p hp) (unfold cons_head in refl)

-- Splitting takes joining back.
pub split-join :
    (sep : ℕ) (p : Text) (ps : List Text)
    → All (Lacks sep) (p ∷ ps)
    → split (join (p ∷ ps) (sep ∷ [])) sep ≡ p ∷ ps
unfolding join
split-join sep p [] (h, _) = split_lacking sep p h
split-join sep p (q ∷ ps) (h, hs) =
    rw (split-append sep p (join (q ∷ ps) (sep ∷ [])) h, split-join sep q ps hs) refl

pub Lacks-append : (b : ℕ) (s t : Text) → Lacks b s → Lacks b t → Lacks b (s ++ t)
Lacks-append b [] t h k = k
Lacks-append b (c ∷ s) t (e, h) k = (e, Lacks-append b s t h k)
