-- ===== src/Env/Laws.antt =====
-- Variables that are set and read back.
use telemd.Base.{◌≡◌, some, Text, equal, equal_refl, arith, if◌then◌else◌}
use telemd.Base.Dict.{Dict, lookup-insert}
use telemd.Base.Dict
use telemd.Env.{os_lookup, os_set}

pub os_set-insert :
    (key value : Text) (vars : Dict Text) {vars' : Dict Text}
    → os_set key value vars ≡ some vars'
    → vars' ≡ Dict.insert key value vars
unfolding os_set
os_set-insert key value vars e = ground arith

pub os_lookup-insert :
    (key other value : Text) (vars : Dict Text)
    → os_lookup (Dict.insert key value vars) other
      ≡ (if equal key other then some value else os_lookup vars other)
unfolding os_lookup
os_lookup-insert key other value vars = lookup-insert key other value vars

pub os_lookup-insert_self :
    (key value : Text) (vars : Dict Text) → os_lookup (Dict.insert key value vars) key ≡ some value
os_lookup-insert_self key value vars = rw (os_lookup-insert, equal_refl key)
