-- ===== src/Main.antt =====
-- cmd/telemd/main.go: the configuration in its layers.
pub mod Precedence
pub mod System
use telemd.Base.{Option, none, some, List, [], ◌∷◌, Text, codes, ◌>>=◌}
use telemd.Base.Int.{ℤ}
use telemd.Go.Strconv.{WithErr}
use telemd.Host.{Host, Moment, next}
use telemd.Env.{Environment, IniFile, new_ini_environment, new_ini_section_environment}
use telemd.Cfg.{Config, new_default_config, load_from_environment}

abbrev pub default_config_path : Text
default_config_path = codes "/etc/telemd/config.ini"

-- A layer that is there only if its file could be read.
pub load_if_read : (Text → WithErr ℤ) → Option Environment → Config → Option Config
load_if_read parse_duration layer cfg = elim layer [
  | none ↦ some cfg
  | some env ↦ load_from_environment parse_duration env cfg
]

-- The parameters are the host, the durations, the ini library's `Load` (called anew for each of
-- the two sections) and the variables of the process; `none` is the end of the program.
module _ (H : Host) (parse_duration : Text → WithErr ℤ) (ini_load : Moment → Text → Option IniFile)
    (os_env : Environment) where
  -- The block for a file that is there, behind a first load of the process's variables.
  pub load_file : Moment → Config → Option Config
  load_file n cfg = do
    cfg₁ ← load_if_read parse_duration (new_ini_environment (ini_load n default_config_path)) cfg
    cfg₂ ←
        load_if_read parse_duration
          (new_ini_section_environment (ini_load (next n) default_config_path) cfg₁.node_name) cfg₁
    load_from_environment parse_duration os_env cfg₂

  pub load_config : Moment → Option Config
  unfolding load_file load_if_read
  load_config m = do
    let n = next (next (next m))
    cfg ← load_from_environment parse_duration os_env (new_default_config H m)
    elim (H.stat n default_config_path) [ some err ↦ some cfg | none ↦ load_file n cfg ]
