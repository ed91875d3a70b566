-- ===== src/Daemon/Names/Kept.antt =====
-- Instruments under their own names stay there.
use telemd.Base.{
  ◌≡◌, refl, sym, ap, ◌∙◌, Option, none, some, List, [], ◌∷◌, Text, All, Bool-cases, inl, inr,
  equal, equal-eq, some-inj, leb, length,
}
use telemd.Base.Dict.{Dict}
use telemd.Base.Dict
use telemd.Cfg.{Config}
use telemd.Instrument.{Instrument}
use telemd.Measure.Dispatch.Names.{name_of}
use telemd.Daemon.{remove_all, take_one, take_all, select}

-- Every instrument of a map stands under its own name.
abbrev pub IsNamed : Dict Instrument → Type 0
IsNamed = All (λ e. name_of e.1 ≡ e.0)

pub lookup-IsNamed :
    (k : Text) (d : Dict Instrument) (i : Instrument)
    → IsNamed d
    → Dict.lookup k d ≡ some i
    → name_of i ≡ k
unfolding Dict.lookup
lookup-IsNamed k [] i h e = cc
lookup-IsNamed k ((j, i) ∷ d) i' (h, hs) e = elim (Bool-cases (equal j k)) [
  | inl same ↦ ap name_of (sym (some-inj (rw same at e))) ∙ (h ∙ equal-eq j k same)
  | inr other ↦ lookup-IsNamed k d i' hs (rw other at e)
]

pub insert-IsNamed :
    (k : Text) (i : Instrument) (d : Dict Instrument)
    → name_of i ≡ k
    → IsNamed d
    → IsNamed (Dict.insert k i d)
unfolding Dict.insert
insert-IsNamed k i [] e h = (e, tt)
insert-IsNamed k i ((j, i') ∷ d) e (h, hs) = elim (Bool-cases (equal j k)) [
  | inl same ↦ rw same (e, hs)
  | inr other ↦ rw other (h, insert-IsNamed k i d e hs)
]

erase-IsNamed : (k : Text) (d : Dict Instrument) → IsNamed d → IsNamed (Dict.erase k d)
unfolding Dict.erase
erase-IsNamed k [] h = tt
erase-IsNamed k ((j, i) ∷ d) (h, hs) = elim (Bool-cases (equal j k)) [
  | inl same ↦ rw same (erase-IsNamed k d hs)
  | inr other ↦ rw other (h, erase-IsNamed k d hs)
]

remove_all-IsNamed : (ks : List Text) (d : Dict Instrument) → IsNamed d → IsNamed (remove_all ks d)
unfolding remove_all
remove_all-IsNamed [] d h = h
remove_all-IsNamed (k ∷ ks) d h = remove_all-IsNamed ks (Dict.erase k d) (erase-IsNamed k d h)

take_one-IsNamed :
    (k : Text) (o : Option Instrument) (taken : Dict Instrument)
    → ((i : Instrument) → o ≡ some i → name_of i ≡ k)
    → IsNamed taken
    → IsNamed (take_one k o taken)
unfolding take_one
take_one-IsNamed k none taken h g = g
take_one-IsNamed k (some i) taken h g = insert-IsNamed k i taken (h i refl) g

take_all-IsNamed :
    (ks : List Text) (d taken : Dict Instrument)
    → IsNamed d
    → IsNamed taken
    → IsNamed (take_all ks d taken)
unfolding take_all
take_all-IsNamed [] d taken h g = g
take_all-IsNamed (k ∷ ks) d taken h g =
    take_all-IsNamed ks d (take_one k (Dict.lookup k d) taken) h
      (take_one-IsNamed k (Dict.lookup k d) taken (λ i e. lookup-IsNamed k d i h e) g)

pub select-IsNamed : (cfg : Config) (d : Dict Instrument) → IsNamed d → IsNamed (select cfg d)
unfolding select
select-IsNamed cfg d h = elim (Bool-cases (leb 1 (length cfg.disable))) [
  | inl disabled ↦ rw disabled (remove_all-IsNamed cfg.disable d h)
  | inr none_disabled ↦ rw none_disabled (elim (Bool-cases (leb 1 (length cfg.enable))) [
    | inl enabled ↦ rw enabled (take_all-IsNamed cfg.enable d [] h tt)
    | inr none_enabled ↦ rw none_enabled h
  ])
]
