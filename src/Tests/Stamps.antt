-- ===== src/Tests/Stamps.antt =====
-- Time stamps at concrete times.
use telemd.Base.{◌≡◌, refl, none, some, [], ◌∷◌, ◌++◌, Text, arith, map}
use telemd.Base.Int.{pos}
use telemd.Go.Strings.{split}
use telemd.Go.Strconv.{parse_int}
use telemd.Telem.{unix_time_string}
use telemd.Telem.Stamp.{at, stamp_parts, stamp_tenfold}

stamp_parts_example :
    (stamp : Text) × (unix_time_string (at 1606436822 75) ≡ some stamp)
    × (map parse_int (split stamp b'.') ≡ (pos 1606436822, none) ∷ (pos 75, none) ∷ [])
stamp_parts_example = stamp_parts 1606436822 75 (omega arith) (omega arith) (omega arith)

stamp_tenfold_example :
    (stamp : Text) × (unix_time_string (at 1606436822 75) ≡ some stamp)
    × (unix_time_string (at 1606436822 750) ≡ some (stamp ++ (b'0' ∷ [])))
stamp_tenfold_example =
    stamp_tenfold 1606436822 75 (omega arith) (omega arith) (omega arith) (omega arith)

epoch : unix_time_string (at 0 5) ≡ none
unfolding unix_time_string
epoch = refl
