-- ===== src/Tests/Redis.antt =====
-- The limiter and the client of internal/redis at concrete histories.
use telemd.Base.{◌≡◌, refl, ◌≢◌, Bool, true, false, none, some, List, [], ◌∷◌, arith, All}
use telemd.Base.Int.{pos, add64}
use telemd.Redis.Limiter.{
  connected, failed, recovered, client_closed, granted, new_limiter, allow, close, report_result,
  run, is_retrying,
}
use telemd.Redis.Client
use telemd.Redis.Client.{new_reconnecting_client, allow-report-close}
use telemd.Redis.Protocol.{IsProtocol, down_after, run-IsProtocol, run_first_failure, allow-run}

abbrev history : List Bool
history = true ∷ false ∷ false ∷ true ∷ false ∷ []

messages : (run history (new_limiter (pos 5))).1 ≡ connected ∷ failed ∷ recovered ∷ failed ∷ []
unfolding run report_result new_limiter add64
messages = refl

late_success : (run (false ∷ true ∷ true ∷ []) (new_limiter (pos 5))).1 ≡ []
unfolding run report_result new_limiter add64
late_success = refl

run-IsProtocol_example :
    IsProtocol (run history (new_limiter (pos 5))).1
    × (down_after false (run history (new_limiter (pos 5))).1
        ≡ is_retrying (run history (new_limiter (pos 5))).0)
run-IsProtocol_example = run-IsProtocol history (pos 5) (omega arith)

run_first_failure_example :
    All (λ m. m ≢ connected) (run (false ∷ history) (new_limiter (pos 5))).1
    × ((run (false ∷ true ∷ true ∷ []) (new_limiter (pos 5))).1 ≡ [])
run_first_failure_example = run_first_failure history 2 (pos 5) (omega arith)

allow-run_example :
    (allow (run history (new_limiter (pos 5))).0 ≡ granted (some (pos 5)))
    × (allow (close (run history (new_limiter (pos 5))).0) ≡ client_closed)
allow-run_example = allow-run true (false ∷ false ∷ true ∷ false ∷ []) (pos 5) (omega arith)

allow-report-close_example :
    (allow (Client.close (new_reconnecting_client (pos 5))).0.limiter ≡ client_closed)
    × (Client.report true (Client.close (new_reconnecting_client (pos 5))).0 ≡ none)
unfolding new_reconnecting_client new_limiter
allow-report-close_example = allow-report-close (new_reconnecting_client (pos 5)) true (omega arith)
