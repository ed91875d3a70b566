-- ===== src/Tests/Tickers.antt =====
-- A ticker under concrete calls.
use telemd.Base.{
  ◌>>=◌, ◌≡◌, refl, true, false, none, some, List, [], ◌∷◌, neither, left, right, ◌⊎◌, ◌++◌,
}
use telemd.Base.Int.{pos}
use telemd.Ticker.{
  new_telemetry_ticker, start, arm, pause, tick, send, stop_timer, new_timer, act, act_all,
  pause_actions, unpause_actions, Ticker, Action, Call, pause_call, unpause_call, stop_call,
  timer_tick, call, call_all,
}
use telemd.Ticker.Refinement.{
  active, paused, stopped, ticker_of, meter_run, dead, call_all-meter_run, overlapping_calls,
}

abbrev calls : List Call
calls =
    timer_tick ∷ pause_call ∷ pause_call ∷ unpause_call ∷ timer_tick ∷ unpause_call ∷ stop_call ∷ []

call_all-meter_run_example :
    (start (new_telemetry_ticker (pos 7)) >>= call_all calls)
    ≡ some (ticker_of (pos 7) (record { phase = stopped; count = 2 }))
unfolding meter_run
call_all-meter_run_example = call_all-meter_run (pos 7) calls

after_stop :
    (start (new_telemetry_ticker (pos 7)) >>= call_all (stop_call ∷ pause_call ∷ [])) ≡ none
unfolding call_all call start arm new_telemetry_ticker
after_stop = refl

abbrev overlap : List Action
overlap = send (pause true) ∷ new_timer ∷ stop_timer ∷ send (pause false) ∷ []

abbrev running : Ticker
running = ticker_of (pos 7) (record { phase = active; count = 3 })

overlapping_calls_example :
    (((overlap ≡ pause_actions ++ unpause_actions) × (act_all overlap running ≡ some running))
      ⊎ ((overlap ≡ unpause_actions ++ pause_actions)
          × (act_all overlap running
              ≡ some (ticker_of (pos 7) (record { phase = paused; count = 3 }))))
      ⊎ (act_all overlap running ≡ some (dead running)))
    × (act (send tick) (dead running) ≡ none)
    × (call unpause_call (dead running) ≡ some running)
overlapping_calls_example = overlapping_calls (pos 7) 3 refl (left (right (left (right neither))))
