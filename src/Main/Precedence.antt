-- ===== src/Main/Precedence.antt =====
-- Which layer of the configuration decides.
pub mod Collapse
use telemd.Base.{
  ◌≡◌, refl, ap, inl, inr, ◌⊎◌, ◌*◌, ◌∙◌, Option, none, some, List, [], Text, codes, arith, ◌>>=◌,
  Option-cases, >>=-eq-some, map-eq-some, >>=-map, map->>=, >>=-cong, map-cong,
}
use telemd.Base.Int.{ℤ, pos}
use telemd.Go.Time.{second}
use telemd.Base.Dict.{Dict}
use telemd.Base.Dict
use mathlib.Core.Option
use mathlib.Core.Option.{or_else}
use telemd.Go.Strconv.{Err, WithErr}
use telemd.Go.Strings.{fields}
use telemd.Host.{Host, Moment, next}
use telemd.Env.{Environment, IniFile, ini_lookup, new_ini_environment, new_ini_section_environment}
use telemd.Cfg.{
  Config, new_default_config, or_keep, redis_url_from, load_periods, default_periods, backoff_from,
}
use telemd.Cfg.Layers.{overlaid, duration_of, load_from_environment_lem, lookup-load_periods}
use telemd.Main.{default_config_path, load_config}
use telemd.Main.Precedence.Collapse.{collapse, collapse_fields, collapse_lookup}

backoff_of_good :
    (parse_duration : Text → WithErr ℤ) (env : Environment) (old : ℤ)
    → ((text : Text)
        → env (codes "telemd_redis_Retry_backoff") ≡ some text
        → (parse_duration text).1 ≡ none)
    → backoff_from parse_duration env old ≡ old
unfolding backoff_from
backoff_of_good parse_duration env old good =
    elim (Option-cases (env (codes "telemd_redis_Retry_backoff"))) [
      | inl e ↦ ground arith
      | inr (text, e) ↦ ground (arith, good text e)
    ]

>>=-some {ℓ κ} :
    {A : Type ℓ} {B : Type κ} (f : A → B) (o : Option A) → (o >>= λ a. some (f a)) ≡ Option.map f o
>>=-some f none = refl
>>=-some f (some a) = refl

module _ (H : Host) (parse_duration : Text → WithErr ℤ) (ini_load : Moment → Text → Option IniFile)
    (os_env : Environment) (m : Moment) (file : IniFile) where
  -- The moment at which the file is looked for, behind those of the defaults.
  abbrev look : Moment
  look = next (next (next m))

  -- The file is there and reads alike both times.
  pub record IsRead : Type 0 where
    pub present : H.stat look default_config_path ≡ none
    pub first : ini_load look default_config_path ≡ some file
    pub second : ini_load (next look) default_config_path ≡ some file

  abbrev pub default : Config
  default = new_default_config H m

  abbrev pub global : Environment
  global = ini_lookup file []

  -- The name of the section that is read: a node name above the sections comes before that of
  -- the process, and before the host's name.
  abbrev pub section_name : Text
  section_name =
      or_keep (global (codes "telemd_nodename"))
        (or_keep (os_env (codes "telemd_nodename")) default.node_name)

  abbrev pub section : Environment
  section = ini_lookup file section_name

  -- The periods after all four loads.
  abbrev pub all_periods : Option (Dict ℤ)
  all_periods = load_periods parse_duration os_env default_periods >>= λ p₀.
      load_periods parse_duration global p₀ >>= λ p₁.
      load_periods parse_duration section p₁ >>= λ p₂. load_periods parse_duration os_env p₂

  -- The text of a variable: of the process, else of the node's section, else above the sections.
  abbrev pub layered : Text → Option Text
  layered key = or_else (os_env key) (or_else (section key) (global key))

  abbrev pub layered_fields : Text → List Text → List Text
  layered_fields key old = or_keep (Option.map fields (layered key)) old

  -- The period of a name with a default, by the first layer that has one.
  abbrev pub layered_period : Text → Option ℤ
  layered_period k =
      Option.map
        (or_keep (
          or_else (duration_of parse_duration os_env k)
            (or_else (duration_of parse_duration section k) (duration_of parse_duration global k))))
        (Dict.lookup k default_periods)

  -- The backoff through the four loads.
  abbrev pub final_backoff : ℤ
  final_backoff = backoff_from parse_duration os_env (
      backoff_from parse_duration section (
        backoff_from parse_duration global
          (backoff_from parse_duration os_env default.redis_retry_backoff)))

  abbrev pub layered_config : Dict ℤ → Config
  layered_config periods = record {
    node_name = or_keep (layered (codes "telemd_nodename")) default.node_name;
    redis_url =
        or_keep
          (or_else (redis_url_from os_env)
            (or_else (redis_url_from section) (redis_url_from global)))
          default.redis_url;
    redis_retry_backoff = final_backoff;
    enable = layered_fields (codes "telemd_instruments_enable") default.enable;
    disable = layered_fields (codes "telemd_instruments_disable") default.disable;
    periods = periods;
    net_devices = layered_fields (codes "telemd_net_devices") default.net_devices;
    disk_devices = layered_fields (codes "telemd_disk_devices") default.disk_devices;
    proc_mount = or_keep (os_env (codes "telemd_proc_mount")) (codes "/proc");
  }

  load_config_chain :
      IsRead
      → load_config H parse_duration ini_load os_env m ≡ (
          load_periods parse_duration os_env default_periods >>= λ p₀.
          load_periods parse_duration global p₀ >>= λ p₁.
          load_periods parse_duration section p₁ >>= λ p₂.
          Option.map
            (overlaid parse_duration os_env (
              overlaid parse_duration section
                (overlaid parse_duration global (overlaid parse_duration os_env default p₀) p₁)
                p₂))
            (load_periods parse_duration os_env p₂))
  unfolding load_config new_ini_section_environment new_ini_environment new_default_config
  load_config_chain r = simp (r.present, r.first, r.second, load_from_environment_lem, >>=-map)

  -- Four layers are one.
  overlaid-layered_config :
      (p₀ p₁ p₂ p₃ : Dict ℤ)
      → overlaid parse_duration os_env
          (overlaid parse_duration section
            (overlaid parse_duration global (overlaid parse_duration os_env default p₀) p₁)
            p₂)
          p₃
        ≡ layered_config p₃
  overlaid-layered_config p₀ p₁ p₂ p₃ =
      let at_fields : (key : Text) (d : List Text)
          → or_keep (Option.map fields (os_env key)) (
              or_keep (Option.map fields (section key)) (
                or_keep (Option.map fields (global key))
                  (or_keep (Option.map fields (os_env key)) d)))
            ≡ layered_fields key d =
        λ key d. collapse_fields (os_env key) (section key) (global key) d in
      let name : Text = codes "telemd_nodename" in
      λ i. record {
        node_name = collapse (os_env name) (section name) (global name) default.node_name i;
        redis_url =
            collapse (redis_url_from os_env) (redis_url_from section) (redis_url_from global)
              default.redis_url i;
        redis_retry_backoff = final_backoff;
        enable = at_fields (codes "telemd_instruments_enable") default.enable i;
        disable = at_fields (codes "telemd_instruments_disable") default.disable i;
        periods = p₃;
        net_devices = at_fields (codes "telemd_net_devices") default.net_devices i;
        disk_devices = at_fields (codes "telemd_disk_devices") default.disk_devices i;
        proc_mount = or_keep (os_env (codes "telemd_proc_mount")) (codes "/proc");
      }

  -- With a configuration file that reads alike both times, each setting is decided by the first of
  -- these that has its variable: the process's environment, the node's section, the keys above
  -- the sections; else it is the default. The exceptions are the mount of /proc, which a file
  -- never decides, and the backoff. The program ends if and only if the loading of the periods
  -- does.
  pub load_config-layered :
      IsRead
      → load_config H parse_duration ini_load os_env m ≡ Option.map layered_config all_periods
  load_config-layered r =
      load_config_chain r
      ∙ (>>=-cong (load_periods parse_duration os_env default_periods) λ p₀.
          >>=-cong (load_periods parse_duration global p₀) λ p₁.
            >>=-cong (load_periods parse_duration section p₁) λ p₂.
              map-cong (load_periods parse_duration os_env p₂) (overlaid-layered_config p₀ p₁ p₂))
      ∙ simp map->>=

  all_periods-layered :
      (k : Text) (ps : Dict ℤ) → all_periods ≡ some ps → Dict.lookup k ps ≡ layered_period k
  all_periods-layered k ps h =
      let (p₀, e₀, h₀) = >>=-eq-some (load_periods parse_duration os_env default_periods) _ h in
      let (p₁, e₁, h₁) = >>=-eq-some (load_periods parse_duration global p₀) _ h₀ in
      let (p₂, e₂, h₂) = >>=-eq-some (load_periods parse_duration section p₁) _ h₁ in
      rw
        (
          lookup-load_periods parse_duration os_env k p₂ ps h₂,
          lookup-load_periods parse_duration section k p₁ p₂ e₂,
          lookup-load_periods parse_duration global k p₀ p₁ e₁,
          lookup-load_periods parse_duration os_env k default_periods p₀ e₀,
        )
        (collapse_lookup (duration_of parse_duration os_env k)
          (duration_of parse_duration section k) (duration_of parse_duration global k)
          (Dict.lookup k default_periods))

  -- With a configuration file that reads alike both times: where the configuration is loaded, the
  -- period of an instrument with a default is decided as the other settings are: by the process's
  -- environment, the node's section, the keys above the sections, and then the default; an
  -- instrument without a default period has none, whatever is configured for it.
  pub load_config_periods :
      {c : Config} (k : Text)
      → IsRead
      → load_config H parse_duration ini_load os_env m ≡ some c
      → Dict.lookup k c.periods ≡ layered_period k
  load_config_periods k r h =
      let (ps, e, d) = map-eq-some layered_config all_periods (rw (load_config-layered r) at h) in
      rw d (all_periods-layered k ps e)

  -- The environment has no backoff, or one that parses as a duration.
  abbrev pub HasGoodBackoff : Environment → Type 0
  HasGoodBackoff env =
      (text : Text)
      → env (codes "telemd_redis_Retry_backoff") ≡ some text
      → (parse_duration text).1 ≡ none

  -- There is no configuration file, or it reads alike both times and its backoffs are good.
  abbrev pub HasGoodFile : Type 0
  HasGoodFile =
      ((err : Err) × (H.stat look default_config_path ≡ some err))
      ⊎ (IsRead × HasGoodBackoff section × HasGoodBackoff global)

  load_config_without :
      (err : Err)
      → H.stat look default_config_path ≡ some err
      → load_config H parse_duration ini_load os_env m
        ≡ Option.map
            (overlaid parse_duration os_env default)
            (load_periods parse_duration os_env default_periods)
  unfolding load_config new_default_config
  load_config_without err absent = simp (absent, load_from_environment_lem, >>=-map) (>>=-some _ _)

  -- If there is no configuration file, or one that reads alike both times, and if every backoff
  -- that the process's environment, the node's section or the keys above the sections have parses
  -- as a duration: where the configuration is loaded, its backoff is the default of five seconds,
  -- and none of the configured ones is taken.
  pub load_config_backoff :
      {c : Config}
      → HasGoodBackoff os_env
      → HasGoodFile
      → load_config H parse_duration ini_load os_env m ≡ some c
      → c.redis_retry_backoff ≡ pos (5 * second)
  unfolding new_default_config
  load_config_backoff os_good (inl (err, absent)) h =
      let (ps, e, d) =
        map-eq-some (overlaid parse_duration os_env default)
          (load_periods parse_duration os_env default_periods)
          (rw (load_config_without err absent) at h) in
      rw d (backoff_of_good parse_duration os_env _ os_good)
  load_config_backoff os_good (inr (r, section_good, global_good)) h =
      let (ps, e, d) = map-eq-some layered_config all_periods (rw (load_config-layered r) at h) in
      rw (d, backoff_of_good parse_duration os_env _ os_good)
        (rw (
          backoff_of_good parse_duration section _ section_good,
          backoff_of_good parse_duration global _ global_good,
          backoff_of_good parse_duration os_env _ os_good,
        ))
