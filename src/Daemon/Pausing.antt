-- ===== src/Daemon/Pausing.antt =====
-- How commands and the state of the connection steer the tickers together.
use telemd.Base.{
  ◌≡◌, refl, ◌≢◌, ◌∙◌, Bool, true, false, Option, none, some, List, [], ◌∷◌, ◌++◌, arith,
  if◌then◌else◌, All, ◌&&◌, Bool-cases, inl, inr, ◌>>=◌,
}
use telemd.Base.Dict.{Dict}
use telemd.Ticker.{Ticker, is_positive, arm, start, pause_call, unpause_call, stop_call, call}
use telemd.Ticker.Refinement.{call-meter_step, Phase, active, paused, stopped, loop_of, armed_of}
use telemd.Daemon.{
  Daemon, start_all, start_tickers, call_each, pause_tickers, unpause_tickers, Command, pause,
  unpause, unhandled, handle_command,
}

-- What main and the command loop do to the daemon: a command, `Failed` and `Recovered`.
pub data Event : Type 0 where
  got : Command → Event
  connection_failed connection_recovered : Event

unfoldable pub handle_event : Event → Daemon → Option Daemon
handle_event (got c) d = handle_command c d
handle_event connection_failed d = pause_tickers d
handle_event connection_recovered d = unpause_tickers d

-- Each event is handled to its end before the next.
pub run_events : List Event → Daemon → Option Daemon
run_events [] d = some d
run_events (e ∷ es) d = elim (handle_event e d) [ none ↦ none | some d' ↦ run_events es d' ]

-- The daemon as its operator sees it: whether a command holds the reports back, and the phase of
-- all tickers.
pub record Mode : Type 0 where
  pub held : Bool
  pub phase : Phase

abbrev pub mode_step : Event → Mode → Mode
mode_step (got pause) m = record { held = true; phase = paused }
mode_step (got unpause) m = record { held = false; phase = active }
mode_step (got (unhandled text)) m = m
mode_step connection_failed m = record { held = m.held; phase = paused }
mode_step connection_recovered m = record {
  held = m.held;
  phase = if m.held then m.phase else active;
}

abbrev pub mode_run : List Event → Mode → Mode
mode_run [] m = m
mode_run (e ∷ es) m = mode_run es (mode_step e m)

-- A ticker put into a phase, its measurements kept.
abbrev pub put : Phase → Ticker → Ticker
put p t = record t { loop = loop_of p; armed = some (armed_of p) }

abbrev pub put_all : Phase → Dict Ticker → Dict Ticker
put_all p [] = []
put_all p ((k, t) ∷ ts) = (k, put p t) ∷ put_all p ts

abbrev pub in_mode : Mode → Daemon → Daemon
in_mode m d = record d { is_paused_by_command = m.held; tickers = put_all m.phase d.tickers }

call_pause :
    (p : Phase) (t : Ticker) → p ≢ stopped → call pause_call (put p t) ≡ some (put paused t)
unfolding call
call_pause active t h = refl
call_pause paused t h = refl
call_pause stopped t h = absurd (h refl)

-- Every period can be that of a timer.
abbrev pub all_positive : Dict Ticker → Bool
all_positive [] = true
all_positive ((k, t) ∷ ts) = is_positive t.duration && all_positive ts

both : (a b : Bool) → a && b ≡ true → (a ≡ true) × (b ≡ true)
both true true h = (refl, refl)
both true false h = absurd cc
both false b h = absurd cc

call_unpause :
    (p : Phase) (t : Ticker)
    → p ≢ stopped
    → is_positive t.duration ≡ true
    → call unpause_call (put p t) ≡ some (put active t)
call_unpause active t h g = call-meter_step t.duration unpause_call active t.measured g
call_unpause paused t h g = call-meter_step t.duration unpause_call paused t.measured g
call_unpause stopped t h g = absurd (h refl)

call_each_pause :
    (p : Phase) (ts : Dict Ticker)
    → p ≢ stopped
    → call_each pause_call (put_all p ts) ≡ some (put_all paused ts)
unfolding call_each
call_each_pause p [] h = refl
call_each_pause p ((k, t) ∷ ts) h = rw (call_pause p t h, call_each_pause p ts h)

call_each_unpause :
    (p : Phase) (ts : Dict Ticker)
    → p ≢ stopped
    → all_positive ts ≡ true
    → call_each unpause_call (put_all p ts) ≡ some (put_all active ts)
unfolding call_each
call_each_unpause p [] h g = refl
call_each_unpause p ((k, t) ∷ ts) h g =
    let (one, others) = both (is_positive t.duration) (all_positive ts) g in
    rw (call_unpause p t h one, call_each_unpause p ts h others)

call_stop : (p : Phase) (t : Ticker) → p ≢ stopped → call stop_call (put p t) ≡ some (put stopped t)
unfolding call
call_stop active t h = refl
call_stop paused t h = refl
call_stop stopped t h = absurd (h refl)

pub call_each_stop :
    (p : Phase) (ts : Dict Ticker)
    → p ≢ stopped
    → call_each stop_call (put_all p ts) ≡ some (put_all stopped ts)
unfolding call_each
call_each_stop p [] h = refl
call_each_stop p ((k, t) ∷ ts) h = rw (call_stop p t h, call_each_stop p ts h)

pub handle_event-mode_step :
    (e : Event) (m : Mode) (d : Daemon)
    → m.phase ≢ stopped
    → all_positive d.tickers ≡ true
    → handle_event e (in_mode m d) ≡ some (in_mode (mode_step e m) d)
unfolding handle_event handle_command pause_tickers unpause_tickers
handle_event-mode_step (got pause) m d h g = rw (call_each_pause m.phase d.tickers h)
handle_event-mode_step (got unpause) m d h g = rw (call_each_unpause m.phase d.tickers h g)
handle_event-mode_step (got (unhandled text)) m d h g = refl
handle_event-mode_step connection_failed m d h g = rw (call_each_pause m.phase d.tickers h)
handle_event-mode_step connection_recovered m d h g =
    ground (arith, call_each_unpause m.phase d.tickers h g)

pub mode_step_live : (e : Event) (m : Mode) → m.phase ≢ stopped → (mode_step e m).phase ≢ stopped
mode_step_live (got pause) m h = λ e. cc
mode_step_live (got unpause) m h = λ e. cc
mode_step_live (got (unhandled text)) m h = h
mode_step_live connection_failed m h = λ e. cc
mode_step_live connection_recovered m h = ground arith

run_events-mode_run_from :
    (es : List Event) (m : Mode) (d : Daemon)
    → m.phase ≢ stopped
    → all_positive d.tickers ≡ true
    → run_events es (in_mode m d) ≡ some (in_mode (mode_run es m) d)
unfolding run_events
run_events-mode_run_from [] m d h g = refl
run_events-mode_run_from (e ∷ es) m d h g =
    rw (handle_event-mode_step e m d h g, run_events)
      (run_events-mode_run_from es (mode_step e m) d (mode_step_live e m h) g)

start_all-put_all :
    (ts : Dict Ticker) → start_all ts ≡ (if all_positive ts then some (put_all active ts) else none)
unfolding start_all start arm
start_all-put_all [] = refl
start_all-put_all ((k, t) ∷ ts) = elim (Bool-cases (is_positive t.duration)) [
  | inl one ↦
      rw (one, start_all-put_all ts)
        (elim (Bool-cases (all_positive ts)) [
          | inl others ↦ rw others refl
          | inr others ↦ rw others refl
        ])
  | inr one ↦ rw one refl
]

abbrev pub on_air : Mode
on_air = record { held = false; phase = active }

pub start_tickers-on_air :
    (d : Daemon)
    → d.is_paused_by_command ≡ false
    → start_tickers d ≡ (if all_positive d.tickers then some (in_mode on_air d) else none)
unfolding start_tickers
start_tickers-on_air d h =
    rw (start_all-put_all d.tickers) (elim (Bool-cases (all_positive d.tickers)) [
      | inl g ↦ rw g (ground (arith, h))
      | inr g ↦ rw g refl
    ])

-- If every ticker has a positive period: for every sequence of commands, connection failures and
-- recoveries, each handled to its end before the next, no call of a ticker blocks or panics, and all
-- tickers of a daemon that has just started end in the phase that the operator's view says, with
-- their measurements kept: a `pause` command and a failure pause them, an `unpause` command makes
-- them active, and a recovery makes them active unless the last of the two commands was `pause`. If
-- a period is not positive the daemon panics when it starts.
pub run_events-mode_run :
    (es : List Event) (d : Daemon)
    → d.is_paused_by_command ≡ false
    → (start_tickers d >>= run_events es)
      ≡ (if all_positive d.tickers then some (in_mode (mode_run es on_air) d) else none)
run_events-mode_run es d h = elim (Bool-cases (all_positive d.tickers)) [
  | inl g ↦ rw (start_tickers-on_air d h, g) (run_events-mode_run_from es on_air d (λ e. cc) g)
  | inr g ↦ rw (start_tickers-on_air d h, g) refl
]

-- The command that ends a pause.
abbrev pub IsNotUnpause : Event → Type 0
IsNotUnpause (got unpause) = ⊥
IsNotUnpause _ = Unit

held_paused :
    (es : List Event) (m : Mode)
    → All IsNotUnpause es
    → m.held ≡ true
    → m.phase ≡ paused
    → mode_run es m ≡ record { held = true; phase = paused }
held_paused [] m _ h p = ground arith
held_paused (got pause ∷ es) m (_, quiet) h p = held_paused es _ quiet refl refl
held_paused (got unpause ∷ es) m (no_unpause, quiet) h p = absurd no_unpause
held_paused (got (unhandled text) ∷ es) m (_, quiet) h p = held_paused es m quiet h p
held_paused (connection_failed ∷ es) m (_, quiet) h p = held_paused es _ quiet h refl
held_paused (connection_recovered ∷ es) m (_, quiet) h p = held_paused es _ quiet h (ground arith)

mode_run-append :
    (es fs : List Event) (m : Mode) → mode_run (es ++ fs) m ≡ mode_run fs (mode_run es m)
mode_run-append [] fs m = refl
mode_run-append (e ∷ es) fs m = mode_run-append es fs (mode_step e m)

-- If every ticker has a positive period: once a `pause` command was handled, the tickers stay paused
-- through every failure and recovery of the connection, and every further command, until an
-- `unpause` command.
pub run_events_held :
    (es fs : List Event) (d : Daemon)
    → d.is_paused_by_command ≡ false
    → all_positive d.tickers ≡ true
    → All IsNotUnpause fs
    → (start_tickers d >>= run_events (es ++ (got pause ∷ fs)))
      ≡ some (in_mode (record { held = true; phase = paused }) d)
run_events_held es fs d h g quiet =
    run_events-mode_run (es ++ (got pause ∷ fs)) d h
    ∙ rw (g, mode_run-append es (got pause ∷ fs) on_air, held_paused fs _ quiet refl refl)
