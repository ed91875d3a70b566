-- ===== src/Ticker.antt =====
-- internal/telemd/ticker.go: one goroutine for each instrument, steered over two unbuffered channels.
pub mod Refinement
use telemd.Base.{ℕ, zero, suc, ◌>>=◌, ◌+◌, Bool, true, false, Option, none, some, List, [], ◌∷◌}
use telemd.Base.{if◌then◌else◌}
use telemd.Base.Int.{ℤ, pos}

-- Where the goroutine of `Run` stands: before its first statement, in the outer `select`, in the
-- `select` of the loop `Pausing`, or returned.
pub data Loop : Type 0 where
  unstarted waiting pausing returned : Loop

-- The fields that change, and the number of `MeasureAndReport` goroutines begun. `armed` says
-- that the `time.Ticker` in the field `ticker` has not been stopped; `none` is the nil pointer.
pub record Ticker : Type 0 where
  pub duration : ℤ
  pub loop : Loop
  pub armed : Option Bool
  pub measured : ℕ

unfoldable pub new_telemetry_ticker : ℤ → Ticker
new_telemetry_ticker duration = record {
  duration = duration;
  loop = unstarted;
  armed = none;
  measured = 0;
}

-- `time.NewTicker` panics for any other duration.
abbrev pub is_positive : ℤ → Bool
is_positive (pos (suc n)) = true
is_positive _ = false

-- `ticker.ticker = time.NewTicker(ticker.duration)`; `none` is the panic.
unfoldable pub arm : Ticker → Option Ticker
arm t = if is_positive t.duration then some (record t { armed = some true }) else none

-- The first statement of `Run`.
unfoldable pub start : Ticker → Option Ticker
unfolding arm
start t = do t' ← arm t; some (record t' { loop = waiting })

-- What a `select` of `Run` receives.
pub data Received : Type 0 where
  done pause : Bool → Received
  tick : Received

-- The branches of the two `select` statements; `none` where no branch receives, so that the
-- sender blocks. A tick begins a measurement, which is the second component.
pub receive : Loop → Received → Option (Loop × Bool)
receive waiting (done true) = some (returned, false)
receive waiting (done false) = some (waiting, false)
receive waiting (pause true) = some (pausing, false)
receive waiting (pause false) = some (waiting, false)
receive waiting tick = some (waiting, true)
receive pausing (done true) = some (returned, false)
receive pausing (done false) = some (pausing, false)
receive pausing (pause true) = some (pausing, false)
receive pausing (pause false) = some (waiting, false)
receive _ _ = none

-- The atomic actions of the callers, and the tick of the timer.
pub data Action : Type 0 where
  send : Received → Action
  stop_timer new_timer : Action

delivered : Ticker → Option (Loop × Bool) → Option Ticker
delivered t none = none
delivered t (some (l, false)) = some (record t { loop = l })
delivered t (some (l, true)) = some (record t { loop = l; measured = t.measured + 1 })

stop_armed : Ticker → Option Bool → Option Ticker
stop_armed t none = none
stop_armed t (some _) = some (record t { armed = some false })

-- A tick is there only from a timer that is armed; `none` where the action cannot be taken: a
-- send that blocks, `Stop` on a nil timer, or a new timer with a duration that is not positive.
pub act : Action → Ticker → Option Ticker
unfolding receive delivered stop_armed arm
act (send tick) t = elim t.armed [ some true ↦ delivered t (receive t.loop tick) | _ ↦ none ]
act (send (done b)) t = delivered t (receive t.loop (done b))
act (send (pause b)) t = delivered t (receive t.loop (pause b))
act stop_timer t = stop_armed t t.armed
act new_timer t = arm t

pub act_all : List Action → Ticker → Option Ticker
act_all [] t = some t
act_all (a ∷ as') t = elim (act a t) [ none ↦ none | some t' ↦ act_all as' t' ]

-- The bodies of `Pause`, `Unpause` and `Stop`.
abbrev pub pause_actions : List Action
pause_actions = send (pause true) ∷ stop_timer ∷ []

abbrev pub unpause_actions : List Action
unpause_actions = new_timer ∷ send (pause false) ∷ []

abbrev pub stop_actions : List Action
stop_actions = send (done true) ∷ stop_timer ∷ []

-- The calls, each run to its end with no other call between, and a tick of the timer.
pub data Call : Type 0 where
  pause_call unpause_call stop_call timer_tick : Call

abbrev pub body : Call → List Action
body pause_call = pause_actions
body unpause_call = unpause_actions
body stop_call = stop_actions
body timer_tick = send tick ∷ []

unfoldable pub call : Call → Ticker → Option Ticker
unfolding act_all act
call c t = act_all (body c) t

unfoldable pub call_all : List Call → Ticker → Option Ticker
call_all [] t = some t
call_all (c ∷ cs) t = elim (call c t) [ none ↦ none | some t' ↦ call_all cs t' ]
