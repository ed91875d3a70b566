-- ===== src/Env.antt =====
-- internal/env: what the program asks of the places that configure it.
pub mod Laws
pub mod Methods
use telemd.Base.{
  Bool, true, false, ◌&&◌, ◌||◌, not, Option, none, some, List, [], ◌∷◌, ◌++◌, Text, codes, equal,
  text_dec, ◌==◌, if◌then◌else◌, ℕ,
}
use telemd.Base.Int.{ℤ, pos}
use telemd.Base.Dict.{Dict}
use telemd.Base.Dict
use telemd.Go.Strconv.{Err, syntax, WithErr, parse_int}
use telemd.Go.Strings.{fields}
use telemd.Go.Float.{Floats}

-- The method `Lookup`, from which every other lookup is made.
abbrev pub Environment : Type 0
Environment = Text → Option Text

-- A value, whether the variable is present, and the error of reading it.
abbrev pub Found {ℓ} : Type ℓ → Type ℓ
Found A = A × Bool × Option Err

pub lookup_int : Environment → Text → Found ℤ
lookup_int env key = elim (env key) [
  | some value ↦ let (v, err) = parse_int value in (v, true, err)
  | none ↦ (pos 0, false, none)
]

pub lookup_float : (F : Floats) → Environment → Text → Found F.Float
lookup_float F env key = elim (env key) [
  | some value ↦ let (v, err) = F.parse value in (v, true, err)
  | none ↦ (F.zero, false, none)
]

unfoldable pub lookup_fields : Environment → Text → Found (List Text)
lookup_fields env key = elim (env key) [
  | some value ↦ (fields value, true, none)
  | none ↦ ([], false, none)
]

-- `strconv.ParseBool`
unfoldable pub parse_bool : Text → WithErr Bool
parse_bool s =
    if equal s (codes "1")
      || equal s (codes "t")
      || equal s (codes "T")
      || equal s (codes "true")
      || equal s (codes "TRUE")
      || equal s (codes "True")
    then (true, none)
    else if equal s (codes "0")
        || equal s (codes "f")
        || equal s (codes "F")
        || equal s (codes "false")
        || equal s (codes "FALSE")
        || equal s (codes "False")
    then (false, none)
    else (false, some syntax)

pub lookup_bool : Environment → Text → Found Bool
lookup_bool env key = elim (env key) [
  | some value ↦ let (v, err) = parse_bool value in (v, true, err)
  | none ↦ (false, false, none)
]

-- `time.ParseDuration`, which computes with floats, is a parameter.
unfoldable pub lookup_duration : (Text → WithErr ℤ) → Environment → Text → Found ℤ
lookup_duration parse_duration env key = elim (env key) [
  | some value ↦ let (v, err) = parse_duration value in (v, true, err)
  | none ↦ (pos 0, false, none)
]

-- os.go: the variables of the process.
pub os_lookup : Dict Text → Environment
unfolding Dict.lookup
os_lookup vars key = Dict.lookup key vars

pub os_get : Dict Text → Text → Text
unfolding os_lookup
os_get vars key = elim (os_lookup vars key) [ some value ↦ value | none ↦ [] ]

has_byte : ℕ → Text → Bool
has_byte b [] = false
has_byte b (c ∷ s) = c == b || has_byte b s

-- `os.Setenv` fails on an empty key, on `=` or a zero byte in the key and on a zero byte in the
-- value; `none` is the panic that follows.
unfoldable pub os_set : Text → Text → Dict Text → Option (Dict Text)
unfolding has_byte
os_set key value vars =
    if equal key [] || has_byte b'=' key || has_byte 0 key || has_byte 0 value
    then none
    else some (Dict.insert key value vars)

-- ini.go: the ini library's file, its keys and values, is a parameter. The section "" holds the
-- keys above the first section.
pub record IniFile : Type 0 where
  pub has_key : Text → Text → Bool
  pub value : Text → Text → Text

unfoldable pub ini_lookup : IniFile → Text → Environment
ini_lookup file section key =
    if file.has_key section key then some (file.value section key) else none

pub ini_get : IniFile → Text → Text → Text
unfolding ini_lookup
ini_get file section key = elim (ini_lookup file section key) [ some value ↦ value | none ↦ [] ]

-- `NewIniSectionEnvironment`, on the result of `ini.Load`.
unfoldable pub new_ini_section_environment : Option IniFile → Text → Option Environment
new_ini_section_environment loaded section = elim loaded [
  | none ↦ none
  | some file ↦ some (ini_lookup file section)
]

unfoldable pub new_ini_environment : Option IniFile → Option Environment
unfolding new_ini_section_environment
new_ini_environment loaded = new_ini_section_environment loaded []
