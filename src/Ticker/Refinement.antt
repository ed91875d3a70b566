-- ===== src/Ticker/Refinement.antt =====
-- What a ticker does under calls that do not overlap, and under two calls that do.
use telemd.Base.{
  ℕ, ◌+◌, ◌≡◌, refl, ◌⊎◌, inl, inr, Bool, true, false, Option, none, some, List, [], ◌∷◌, ◌++◌,
  Option-cases, Bool-cases, ◌>>=◌, if◌then◌else◌, Interleaving, neither, left, right,
}
use telemd.Base.Int.{ℤ}
use mathlib.Core.Option
use telemd.Ticker.{
  Loop, waiting, pausing, returned, Ticker, is_positive, arm, new_telemetry_ticker, start, tick,
  Action, send, act, act_all, pause_actions, unpause_actions, Call, pause_call, unpause_call,
  stop_call, timer_tick, call, call_all,
}

-- The abstract ticker: what its callers mean by it, and the measurements begun.
pub data Phase : Type 0 where
  active paused stopped : Phase

pub record Meter : Type 0 where
  pub phase : Phase
  pub count : ℕ

-- A tick is measured if the ticker is active, and there is none otherwise. After a stop nothing
-- is accepted.
abbrev pub meter_step : Call → Phase → ℕ → Option Meter
meter_step _ stopped n = none
meter_step pause_call _ n = some (record { phase = paused; count = n })
meter_step unpause_call _ n = some (record { phase = active; count = n })
meter_step stop_call _ n = some (record { phase = stopped; count = n })
meter_step timer_tick active n = some (record { phase = active; count = n + 1 })
meter_step timer_tick paused n = none

unfoldable pub meter_run : List Call → Meter → Option Meter
meter_run [] m = some m
meter_run (c ∷ cs) m = elim (meter_step c m.phase m.count) [
  | none ↦ none
  | some m' ↦ meter_run cs m'
]

-- The ticker that stands for an abstract one.
abbrev pub loop_of : Phase → Loop
loop_of active = waiting
loop_of paused = pausing
loop_of stopped = returned

abbrev pub armed_of : Phase → Bool
armed_of active = true
armed_of _ = false

abbrev pub ticker_of : ℤ → Meter → Ticker
ticker_of d m = record {
  duration = d;
  loop = loop_of m.phase;
  armed = some (armed_of m.phase);
  measured = m.count;
}

pub call-meter_step :
    (d : ℤ) (c : Call) (p : Phase) (n : ℕ)
    → is_positive d ≡ true
    → call c (ticker_of d (record { phase = p; count = n }))
      ≡ Option.map (ticker_of d) (meter_step c p n)
unfolding call arm
call-meter_step d pause_call active n h = refl
call-meter_step d pause_call paused n h = refl
call-meter_step d pause_call stopped n h = refl
call-meter_step d unpause_call active n h = rw h refl
call-meter_step d unpause_call paused n h = rw h refl
call-meter_step d unpause_call stopped n h = rw h refl
call-meter_step d stop_call active n h = refl
call-meter_step d stop_call paused n h = refl
call-meter_step d stop_call stopped n h = refl
call-meter_step d timer_tick active n h = refl
call-meter_step d timer_tick paused n h = refl
call-meter_step d timer_tick stopped n h = refl

call_all-meter_run_from :
    (d : ℤ) (cs : List Call) (m : Meter)
    → is_positive d ≡ true
    → call_all cs (ticker_of d m) ≡ Option.map (ticker_of d) (meter_run cs m)
unfolding call_all meter_run
call_all-meter_run_from d [] m h = refl
call_all-meter_run_from d (c ∷ cs) m h =
    rw (call-meter_step d c m.phase m.count h, call_all)
      (elim (Option-cases (meter_step c m.phase m.count)) [
        | inl e ↦ rw (e, meter_run)
        | inr (m', e) ↦ rw (e, meter_run) (call_all-meter_run_from d cs m' h)
      ])

abbrev pub begun : Meter
begun = record { phase = active; count = 0 }

-- With a positive period, a started ticker under calls that do not overlap does what the abstract
-- ticker does: a tick is measured while the ticker is active, and no tick comes while it is paused;
-- `Pause` and `Unpause` may be repeated; after `Stop` a further call blocks; and no other call ever
-- blocks or panics. With any other period the ticker's goroutine panics when it starts.
pub call_all-meter_run :
    (d : ℤ) (cs : List Call)
    → (start (new_telemetry_ticker d) >>= call_all cs)
      ≡ (if is_positive d then Option.map (ticker_of d) (meter_run cs begun) else none)
unfolding start new_telemetry_ticker arm
call_all-meter_run d cs = elim (Bool-cases (is_positive d)) [
  | inl h ↦ rw h (call_all-meter_run_from d cs begun h)
  | inr h ↦ rw h refl
]

-- A ticker whose goroutine waits for a tick that its stopped timer never sends.
abbrev pub dead : Ticker → Ticker
dead t = record t { loop = waiting; armed = some false }

-- Each of the six orders of the four actions, by the actions that come first.
overlap_outcomes :
    (d : ℤ) (n : ℕ) {zs : List Action}
    → is_positive d ≡ true
    → Interleaving pause_actions unpause_actions zs
    → let t : Ticker = ticker_of d (record { phase = active; count = n }) in
      ((zs ≡ pause_actions ++ unpause_actions) × (act_all zs t ≡ some t))
      ⊎ ((zs ≡ unpause_actions ++ pause_actions)
          × (act_all zs t ≡ some (ticker_of d (record { phase = paused; count = n }))))
      ⊎ (act_all zs t ≡ some (dead t))
unfolding act_all act arm
overlap_outcomes d n h (left (left (right (right neither)))) = inl (refl, rw h refl)
overlap_outcomes d n h (left (right (left (right neither)))) = inr (inr (rw h refl))
overlap_outcomes d n h (left (right (right (left neither)))) = inr (inr (rw h refl))
overlap_outcomes d n h (right (left (left (right neither)))) = inr (inr (rw h refl))
overlap_outcomes d n h (right (left (right (left neither)))) = inr (inr (rw h refl))
overlap_outcomes d n h (right (right (left (left neither)))) = inr (inl (refl, rw h refl))

-- If a `Pause` and an `Unpause` of an active ticker with a positive period overlap, one of three things follows. Run one
-- behind the other, they leave the ticker active or paused, as the last call says. In every other
-- order they leave it waiting on a stopped timer: then no tick is ever received, and only a
-- further `Unpause` makes the ticker active again.
pub overlapping_calls :
    (d : ℤ) (n : ℕ) {zs : List Action}
    → is_positive d ≡ true
    → Interleaving pause_actions unpause_actions zs
    → let t : Ticker = ticker_of d (record { phase = active; count = n }) in
      (((zs ≡ pause_actions ++ unpause_actions) × (act_all zs t ≡ some t))
        ⊎ ((zs ≡ unpause_actions ++ pause_actions)
            × (act_all zs t ≡ some (ticker_of d (record { phase = paused; count = n }))))
        ⊎ (act_all zs t ≡ some (dead t)))
      × (act (send tick) (dead t) ≡ none)
      × (call unpause_call (dead t) ≡ some t)
unfolding act call arm
overlapping_calls d n h i = (overlap_outcomes d n h i, refl, rw h refl)
