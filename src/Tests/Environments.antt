-- ===== src/Tests/Environments.antt =====
-- The two environments with concrete variables and a concrete file.
use telemd.Base.{
  refl, ◌&&◌, ◌||◌, [], ◌∷◌, Text, codes, equal, equal_refl, text_dec, arith, if◌then◌else◌,
}
use telemd.Base.Int.{negsuc}
use telemd.Base.Dict.{Dict}
use telemd.Base.Dict
use telemd.Go.Decimal.{format_int}
use telemd.Env.{IniFile, os_lookup, os_set, ini_lookup}
use telemd.Env.Methods.{os_environment, ini_environment}
use telemd.Env.Methods.Laws.{SetsValue, Holds, ReadsLookup, set_and_read}
use telemd.Tests.Hosts.{byte_count}
use telemd.Tests.Measures.{whole_numbers}

abbrev set_value : IniFile → Text → Text → Text → IniFile
set_value file section key value = record {
  has_key = λ s k. (equal key k && equal section s) || file.has_key s k;
  value = λ s k. if equal key k && equal section s then value else file.value s k;
}

set_value-SetsValue : SetsValue set_value
set_value-SetsValue = record {
  has_self = λ file section key value. rw (equal_refl key, equal_refl section) refl;
  value_self = λ file section key value. rw (equal_refl key, equal_refl section) refl;
  has_other = λ file section key other value ne. rw ne refl;
  value_other = λ file section key other value ne. rw ne refl;
}

abbrev vars : Dict Text
vars = (codes "B", codes "2") ∷ (codes "A", codes "1") ∷ []

abbrev file : IniFile
file = record {
  has_key = λ section key. equal section (codes "rpi0") && equal key (codes "B");
  value = λ section key. codes "7";
}

set_and_read_example :
    Holds byte_count
      (os_environment whole_numbers byte_count)
      (Dict.insert (codes "A") (codes "-12") vars)
      (codes "A")
      (negsuc 11)
    × ReadsLookup byte_count
        (os_environment whole_numbers byte_count)
        (Dict.insert (codes "A") (codes "-12") vars)
        (os_lookup vars)
        (codes "B")
    × Holds byte_count
        (ini_environment whole_numbers byte_count set_value (codes "rpi0"))
        (set_value file (codes "rpi0") (codes "A") (format_int (negsuc 11)))
        (codes "A")
        (negsuc 11)
    × ReadsLookup byte_count
        (ini_environment whole_numbers byte_count set_value (codes "rpi0"))
        (set_value file (codes "rpi0") (codes "A") (format_int (negsuc 11)))
        (ini_lookup file (codes "rpi0"))
        (codes "B")
unfolding os_set format_int text_dec
set_and_read_example =
    set_and_read whole_numbers byte_count set_value (codes "rpi0") (codes "A") (codes "B")
      (negsuc 11) vars (Dict.insert (codes "A") (codes "-12") vars) file set_value-SetsValue
      (omega arith) refl refl
