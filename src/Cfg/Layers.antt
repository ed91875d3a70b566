-- ===== src/Cfg/Layers.antt =====
-- What a layer of configuration changes, and what it leaves.
use telemd.Base.{
  ◌≡◌, ◌≢◌, Option, none, some, List, [], ◌∷◌, Text, codes, equal_refl, arith, Option-cases, inl,
  inr, ◌⊎◌,
}
use telemd.Base.Int.{ℤ}
use telemd.Base.Dict.{Dict}
use telemd.Base.Dict
use mathlib.Core.Option
use telemd.Go.Strings.{fields}
use telemd.Go.Strconv.{WithErr}
use telemd.Env.{Environment, lookup_fields, lookup_duration}
use telemd.Cfg.{
  Config, or_keep, assign, redis_url_from, backoff_from, period_key, load_periods,
  load_from_environment,
}

assign-lookup_fields :
    (env : Environment) (key : Text) (old : List Text)
    → assign (lookup_fields env key) old ≡ some (or_keep (Option.map fields (env key)) old)
unfolding lookup_fields
assign-lookup_fields env key old = ground arith

module _ (parse_duration : Text → WithErr ℤ) (env : Environment) where
  -- The configuration with the variables put in, given the periods.
  abbrev pub overlaid : Config → Dict ℤ → Config
  overlaid cfg periods = record {
    node_name = or_keep (env (codes "telemd_nodename")) cfg.node_name;
    redis_url = or_keep (redis_url_from env) cfg.redis_url;
    redis_retry_backoff = backoff_from parse_duration env cfg.redis_retry_backoff;
    enable = or_keep (Option.map fields (env (codes "telemd_instruments_enable"))) cfg.enable;
    disable = or_keep (Option.map fields (env (codes "telemd_instruments_disable"))) cfg.disable;
    periods = periods;
    net_devices = or_keep (Option.map fields (env (codes "telemd_net_devices"))) cfg.net_devices;
    disk_devices = or_keep (Option.map fields (env (codes "telemd_disk_devices"))) cfg.disk_devices;
    proc_mount = or_keep (env (codes "telemd_proc_mount")) (codes "/proc");
  }

  pub load_from_environment_lem :
      (cfg : Config)
      → load_from_environment parse_duration env cfg
        ≡ Option.map (overlaid cfg) (load_periods parse_duration env cfg.periods)
  unfolding load_from_environment
  load_from_environment_lem cfg =
      elim (Option-cases (load_periods parse_duration env cfg.periods)) [
        | inl e ↦ simp (e, assign-lookup_fields)
        | inr (periods', e) ↦ simp (e, assign-lookup_fields)
      ]

  -- The duration that the environment gives for an instrument.
  abbrev pub duration_of : Text → Option ℤ
  duration_of k =
      Option.map (λ text. (parse_duration text).0) (env (period_key parse_duration env k))

  -- Whether the environment has a text for the instrument that is no duration.
  abbrev pub Misread : Text → Type 0
  Misread k =
      (text : Text) × (env (period_key parse_duration env k) ≡ some text)
      × ((parse_duration text).1 ≢ none)

  -- A period that loads is the environment's, if that has one, and the old one if not; an
  -- instrument that had no period gets none.
  pub lookup-load_periods :
      (k : Text) (ps ps' : Dict ℤ)
      → load_periods parse_duration env ps ≡ some ps'
      → Dict.lookup k ps' ≡ Option.map (or_keep (duration_of k)) (Dict.lookup k ps)
  unfolding load_periods Dict.lookup lookup_duration
  lookup-load_periods k [] ps' h = ground arith
  lookup-load_periods k ((j, d) ∷ ps) ps' h =
      elim (Option-cases (load_periods parse_duration env ps)) [
        | inl e ↦ ground arith
        | inr (rest, e) ↦ ground (arith, lookup-load_periods k ps rest e)
      ]

  lookup_behind :
      (j k : Text) (d : ℤ) (ps : Dict ℤ)
      → Dict.lookup k ps ≢ none
      → Dict.lookup k ((j, d) ∷ ps) ≢ none
  unfolding Dict.lookup
  lookup_behind j k d ps h = ground arith

  lookup_front : (j : Text) (d : ℤ) (ps : Dict ℤ) → Dict.lookup j ((j, d) ∷ ps) ≢ none
  unfolding Dict.lookup
  lookup_front j d ps = rw (equal_refl j) (λ e. cc)

  -- One round of the loop.
  load_periods_read :
      (j : Text) (d d' : ℤ) (ps : Dict ℤ)
      → assign (lookup_duration parse_duration env (period_key parse_duration env j)) d ≡ some d'
      → load_periods parse_duration env ((j, d) ∷ ps) ≡ none
      → load_periods parse_duration env ps ≡ none
  unfolding load_periods
  load_periods_read j d d' ps e h = ground arith

  read_cases :
      (j : Text) (d : ℤ)
      → Misread j
        ⊎ ((d' : ℤ) × (assign
                (lookup_duration parse_duration env (period_key parse_duration env j))
                d
              ≡ some d'))
  unfolding lookup_duration
  read_cases j d = elim (Option-cases (env (period_key parse_duration env j))) [
    | inl e ↦ inr (d, ground arith)
    | inr (text, e) ↦ elim (Option-cases (parse_duration text).1) [
      | inl good ↦ inr ((parse_duration text).0, ground arith)
      | inr (err, bad) ↦ inl (text, e, ground arith)
    ]
  ]

  -- Loading fails only over a text for an instrument with a period that is no duration.
  pub load_periods-eq-none :
      (ps : Dict ℤ)
      → load_periods parse_duration env ps ≡ none
      → (k : Text) × (Dict.lookup k ps ≢ none) × Misread k
  load_periods-eq-none [] h = unfold load_periods in cc
  load_periods-eq-none ((j, d) ∷ ps) h = elim (read_cases j d) [
    | inl misread ↦ (j, lookup_front j d ps, misread)
    | inr (d', e) ↦
        let (k, present, misread) = load_periods-eq-none ps (load_periods_read j d d' ps e h) in
        (k, lookup_behind j k d ps present, misread)
  ]
