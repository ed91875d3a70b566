-- ===== src/Tests/Reporters.antt =====
-- The reporter's goroutines at concrete runs.
use telemd.Base.{ℕ, List, ◌+◌, ◌≤◌, ◌≡◌, refl, true, [], ◌∷◌, ◌++◌, arith, ◌↔◌, length}
use telemd.Server.Reporting.{
  Reporting, prompt, any_pace, idle, Reach, here, next, connect, fail, run, stop_running, stopped,
  receive, publish, loops,
}
use telemd.Server.Reporting.Single.{one_loop}
use telemd.Server.Reporting.Crowding.{reversed, published_backwards}

-- A publication that fails at first, and the loop that follows the old one with a second telemetry.
abbrev recovered_once : Reporting ℕ
recovered_once = record idle {
  up = true;
  in_flight = 8 ∷ [];
  running = true;
  taken = 7 ∷ 8 ∷ [];
  published = 7 ∷ [];
}

recovered_once-Reach : Reach prompt recovered_once
recovered_once-Reach =
    let publishing = next (next (next here (connect refl refl)) (run refl refl)) (receive 7 refl) in
    let down = next (next publishing (fail refl refl)) (stop_running refl refl (omega arith)) in
    let up_again = next (next down (connect refl refl)) (publish [] 7 [] refl refl) in
    next (next (next up_again (stopped refl refl)) (run refl refl)) (receive 8 refl)

one_loop_example :
    (loops recovered_once ≤ 1)
    × (recovered_once.running ≡ true ↔ loops recovered_once ≡ 1)
    × (recovered_once.taken ≡ recovered_once.published ++ recovered_once.in_flight)
one_loop_example = one_loop recovered_once-Reach

abbrev three : List ℕ
three = 7 ∷ 8 ∷ 9 ∷ []

published_backwards_example :
    (s : Reporting ℕ) × Reach any_pace s
    × (loops s ≡ length three + 2 + 1)
    × (s.starting ≡ 0)
    × (s.stopping ≡ 0)
    × (s.buffered ≡ 0)
    × (s.taken ≡ three)
    × (s.published ≡ reversed three)
published_backwards_example = published_backwards 2 three
