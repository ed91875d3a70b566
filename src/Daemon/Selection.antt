-- ===== src/Daemon/Selection.antt =====
-- Which instruments a configuration lets through, and the tickers that they get.
use telemd.Base.{
  ◌≡◌, refl, Bool, true, false, ◌||◌, not, Option, none, some, List, [], ◌∷◌, Text, equal, arith,
  if◌then◌else◌, length, leb,
}
use mathlib.Core.Option
use mathlib.Core.Option.{or_else}
use telemd.Base.Dict.{Dict, lookup-insert, lookup-erase}
use telemd.Base.Dict
use telemd.Host.{Host, Moment, child}
use telemd.Cfg.{Config}
use telemd.Ticker.{new_telemetry_ticker}
use telemd.Instrument.{Instrument}
use telemd.Daemon.{
  Daemon, base_instruments, add_wireless, remove_all, take_one, take_all, select, init_instruments,
  period_of, init_tickers, new_daemon,
}

abbrev pub listed : Text → List Text → Bool
listed k [] = false
listed k (j ∷ js) = equal j k || listed k js

module _ {ℓ} {V : Type ℓ} where
  lookup-remove_all :
      (k : Text) (ks : List Text) (d : Dict V)
      → Dict.lookup k (remove_all ks d) ≡ (if listed k ks then none else Dict.lookup k d)
  unfolding remove_all
  lookup-remove_all k [] d = refl
  lookup-remove_all k (j ∷ ks) d =
      ground (arith, lookup-remove_all k ks (Dict.erase j d), lookup-erase j k d)

  lookup-take_one :
      (j k : Text) (o : Option V) (taken : Dict V)
      → Dict.lookup k (take_one j o taken)
        ≡ (if equal j k then or_else o (Dict.lookup k taken) else Dict.lookup k taken)
  unfolding take_one or_else
  lookup-take_one j k none taken = ground arith
  lookup-take_one j k (some v) taken = ground (arith, lookup-insert j k v taken)

  lookup-take_all :
      (k : Text) (ks : List Text) (d taken : Dict V)
      → Dict.lookup k (take_all ks d taken) ≡ (
          if listed k ks
          then or_else (Dict.lookup k d) (Dict.lookup k taken)
          else Dict.lookup k taken)
  unfolding take_all or_else
  lookup-take_all k [] d taken = refl
  lookup-take_all k (j ∷ ks) d taken = ground (
    arith,
    lookup-take_all k ks d (take_one j (Dict.lookup j d) taken),
    lookup-take_one j k (Dict.lookup j d) taken,
  )

-- What the configuration means: the disabled names go, or only the enabled ones stay.
abbrev pub permitted : Config → Text → Bool
permitted cfg k =
    if leb 1 (length cfg.disable)
    then not (listed k cfg.disable)
    else if leb 1 (length cfg.enable)
    then listed k cfg.enable
    else true

lookup_nil {ℓ} : {V : Type ℓ} (k : Text) → Dict.lookup {V = V} k [] ≡ none
unfolding Dict.lookup
lookup_nil k = refl

lookup-select {ℓ} :
    {V : Type ℓ} (k : Text) (cfg : Config) (d : Dict V)
    → Dict.lookup k (select cfg d) ≡ (if permitted cfg k then Dict.lookup k d else none)
unfolding select or_else
lookup-select {V} k cfg d = ground (
  arith,
  lookup-remove_all k cfg.disable d,
  lookup-take_all k cfg.enable d [],
  lookup_nil {V = V} k,
)

lookup-init_tickers :
    (k : Text) (cfg : Config) (d : Dict Instrument)
    → Dict.lookup k (init_tickers cfg d)
      ≡ Option.map (λ _. new_telemetry_ticker (period_of cfg k)) (Dict.lookup k d)
unfolding init_tickers Dict.lookup
lookup-init_tickers k cfg [] = refl
lookup-init_tickers k cfg ((j, i) ∷ d) = ground (arith, lookup-init_tickers k cfg d)

new_daemon_fields :
    (H : Host) (m : Moment) (cfg : Config) {available : Dict Instrument} {d : Daemon}
    → base_instruments H m cfg ≡ some available
    → new_daemon H m cfg ≡ some d
    → let chosen : Dict Instrument = select cfg (add_wireless H (child 8 m) available) in
      d ≡ record {
        cfg = cfg;
        is_paused_by_command = false;
        instruments = chosen;
        tickers = init_tickers cfg chosen;
      }
unfolding new_daemon init_instruments
new_daemon_fields H m cfg e h = ground arith

pub new_daemon_lem :
    (H : Host) (m : Moment) (cfg : Config) {available : Dict Instrument} {d : Daemon} (k : Text)
    → base_instruments H m cfg ≡ some available
    → new_daemon H m cfg ≡ some d
    → (Dict.lookup k d.instruments
        ≡ (if permitted cfg k then Dict.lookup k (add_wireless H (child 8 m) available) else none))
      × (Dict.lookup k d.tickers
          ≡ Option.map (λ _. new_telemetry_ticker (period_of cfg k)) (Dict.lookup k d.instruments))
new_daemon_lem H m cfg {available} {d} k e h =
    rw (new_daemon_fields H m cfg e h)
      (lookup-select k cfg (add_wireless H (child 8 m) available), lookup-init_tickers k cfg _)
