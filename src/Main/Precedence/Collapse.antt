-- ===== src/Main/Precedence/Collapse.antt =====
-- A layer that is loaded first and last counts once.
use telemd.Base.{◌≡◌, refl, ap, Option, none, some, List, Text, arith}
use telemd.Base.Int.{ℤ}
use mathlib.Core.Option
use mathlib.Core.Option.{or_else}
use telemd.Go.Strings.{fields}
use telemd.Cfg.{or_keep}

-- Laying the first layer on both below and above the others.
pub collapse {ℓ} :
    {A : Type ℓ} (os section global : Option A) (d : A)
    → or_keep os (or_keep section (or_keep global (or_keep os d)))
      ≡ or_keep (or_else os (or_else section global)) d
unfolding or_else
collapse os section global d = ground arith

pub collapse_fields :
    (os section global : Option Text) (d : List Text)
    → or_keep (Option.map fields os) (
        or_keep
          (Option.map fields section)
          (or_keep (Option.map fields global) (or_keep (Option.map fields os) d)))
      ≡ or_keep (Option.map fields (or_else os (or_else section global))) d
unfolding or_else
collapse_fields os section global d = ground arith

pub collapse_lookup :
    (os section global o : Option ℤ)
    → Option.map
        (or_keep os)
        (Option.map (or_keep section) (Option.map (or_keep global) (Option.map (or_keep os) o)))
      ≡ Option.map (or_keep (or_else os (or_else section global))) o
collapse_lookup os section global none = refl
collapse_lookup os section global (some d) = ap some (collapse os section global d)
