-- ===== src/Env/Methods.antt =====
-- internal/env: the interface `Environment` of env.go, and what os.go and ini.go make of it.
pub mod Laws
use telemd.Base.{Bool, Option, none, some, List, Text}
use telemd.Base.Int.{ℤ}
use telemd.Base.Dict.{Dict}
use telemd.Go.Strconv.{WithErr}
use telemd.Go.Float.{Floats}
use telemd.Env
use telemd.Env.{Environment, Found, IniFile, os_lookup, os_get, os_set, ini_lookup, ini_get}

-- The methods, over what an implementation keeps.
pub record Methods (F : Floats) (S : Type 0) : Type 0 where
  pub lookup : S → Environment
  pub get : S → Text → Text
  -- `none` is a panic.
  pub set : Text → Text → S → Option S
  pub lookup_int : S → Text → Found ℤ
  pub lookup_float : S → Text → Found F.Float
  pub lookup_bool : S → Text → Found Bool
  pub lookup_fields : S → Text → Found (List Text)
  pub lookup_duration : S → Text → Found ℤ

module _ (F : Floats) (parse_duration : Text → WithErr ℤ) where
  -- `OsEnv`, over the variables of the process.
  abbrev pub os_environment : Methods F (Dict Text)
  os_environment = record {
    lookup = os_lookup;
    get = os_get;
    set = os_set;
    lookup_int = λ vars key. Env.lookup_int (os_lookup vars) key;
    lookup_float = λ vars key. Env.lookup_float F (os_lookup vars) key;
    lookup_bool = λ vars key. Env.lookup_bool (os_lookup vars) key;
    lookup_fields = λ vars key. Env.lookup_fields (os_lookup vars) key;
    lookup_duration = λ vars key. Env.lookup_duration parse_duration (os_lookup vars) key;
  }

  -- `iniEnvironment`, over its file. What `SetValue` does to a key of a section is a parameter.
  abbrev pub ini_environment : (IniFile → Text → Text → Text → IniFile) → Text → Methods F IniFile
  ini_environment set_value section = record {
    lookup = λ file. ini_lookup file section;
    get = λ file. ini_get file section;
    set = λ key value file. some (set_value file section key value);
    lookup_int = λ file key. Env.lookup_int (ini_lookup file section) key;
    lookup_float = λ file key. Env.lookup_float F (ini_lookup file section) key;
    lookup_bool = λ file key. Env.lookup_bool (ini_lookup file section) key;
    lookup_fields = λ file key. Env.lookup_fields (ini_lookup file section) key;
    lookup_duration = λ file key. Env.lookup_duration parse_duration (ini_lookup file section) key;
  }
