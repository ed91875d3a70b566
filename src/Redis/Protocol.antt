-- ===== src/Redis/Protocol.antt =====
-- What a listener on the connection-state channel sees, for every history of attempts.
use telemd.Base.{
  ℕ, zero, suc, ◌+◌, ◌<◌, ◌^◌, ◌≡◌, refl, Bool, true, false, List, [], ◌∷◌, arith, length,
  replicate, All, ltb, ◌≢◌, none, some, if◌then◌else◌,
}
use telemd.Base.Int.{ℤ, pos, negsuc, add64}
use telemd.Redis.Limiter.{
  ConnectionState, connected, failed, recovered, stopped, Limiter, new_limiter, report_result, run,
  is_retrying, allow, close, granted, client_closed,
}

-- The messages alternate between failure and recovery; the flag says that the last was a failure.
abbrev pub Alternates : Bool → List ConnectionState → Type 0
Alternates down [] = Unit
Alternates false (failed ∷ ms) = Alternates true ms
Alternates true (recovered ∷ ms) = Alternates false ms
Alternates _ _ = ⊥

-- Whether a listener that has read the messages takes the connection for failed.
abbrev pub down_after : Bool → List ConnectionState → Bool
down_after down [] = down
down_after down (failed ∷ ms) = down_after true ms
down_after down (_ ∷ ms) = down_after false ms

abbrev pub with_failures : Limiter → ℤ → Limiter
with_failures l f = record l { connection_failures = f }

ltb-suc : (n : ℕ) → ltb 0 (suc n) ≡ true
ltb-suc n = ground arith

-- The four kinds of report once the first attempt has been counted.
module _ (l : Limiter) where
  success_while_up :
      l.connection_failures ≡ pos 0 → report_result true l ≡ (with_failures l (pos 0), [])
  unfolding report_result
  success_while_up e = ground arith

  success_while_down :
      (n : ℕ)
      → l.connection_failures ≡ pos (suc n)
      → report_result true l ≡ (with_failures l (pos 0), recovered ∷ [])
  unfolding report_result
  success_while_down n e = ground arith

  failure_while_up :
      l.connection_failures ≡ pos 0 → report_result false l ≡ (with_failures l (pos 1), failed ∷ [])
  unfolding report_result add64
  failure_while_up e = ground arith

  failure_while_down :
      (n : ℕ)
      → l.connection_failures ≡ pos (suc n)
      → suc (suc n) < 2 ^ 63
      → report_result false l ≡ (with_failures l (pos (suc (suc n))), [])
  unfolding report_result add64
  failure_while_down n e h = ground arith

  success_at_first :
      l.connection_failures ≡ negsuc 0
      → report_result true l ≡ (with_failures l (pos 0), connected ∷ [])
  unfolding report_result
  success_at_first e = ground arith

  failure_at_first :
      l.connection_failures ≡ negsuc 0 → report_result false l ≡ (with_failures l (pos 0), [])
  unfolding report_result add64
  failure_at_first e = ground arith

run-Alternates :
    (rs : List Bool) (n : ℕ) (l : Limiter)
    → l.connection_failures ≡ pos n
    → n + length rs < 2 ^ 63
    → Alternates (ltb 0 n) (run rs l).1
      × (down_after (ltb 0 n) (run rs l).1 ≡ is_retrying (run rs l).0)
unfolding run is_retrying
run-Alternates [] n l e h = (tt, ground arith)
run-Alternates (true ∷ rs) zero l e h =
    rw (success_while_up l e) (run-Alternates rs 0 (with_failures l (pos 0)) refl (omega arith))
run-Alternates (true ∷ rs) (suc n) l e h =
    rw (success_while_down l n e, ltb-suc n)
      (run-Alternates rs 0 (with_failures l (pos 0)) refl (omega arith))
run-Alternates (false ∷ rs) zero l e h =
    rw (failure_while_up l e) (run-Alternates rs 1 (with_failures l (pos 1)) refl (omega arith))
run-Alternates (false ∷ rs) (suc n) l e h =
    rw (failure_while_down l n e (omega arith), ltb-suc n)
      (rw (ltb-suc (suc n)) at
        (run-Alternates rs (suc (suc n)) (with_failures l (pos (suc (suc n)))) refl (omega arith)))

-- The messages of a whole life: `Connected` at most once and only as the first, and behind it
-- failures and recoveries in turn, from a connection that is up.
abbrev pub IsProtocol : List ConnectionState → Type 0
IsProtocol (connected ∷ ms) = Alternates false ms
IsProtocol ms = Alternates false ms

Alternates-IsProtocol : (ms : List ConnectionState) → Alternates false ms → IsProtocol ms
Alternates-IsProtocol [] h = h
Alternates-IsProtocol (connected ∷ ms) h = absurd h
Alternates-IsProtocol (failed ∷ ms) h = h
Alternates-IsProtocol (recovered ∷ ms) h = h
Alternates-IsProtocol (stopped ∷ ms) h = h

-- Whatever the results of fewer than 2^63 - 1 attempts, a new limiter sends `Connected` at most
-- once and only as its first message, otherwise `Failed` and `Recovered` in turn beginning with
-- `Failed`; and a listener that has read all messages takes the connection for failed exactly
-- when `IsRetrying` says so.
pub run-IsProtocol :
    (rs : List Bool) (backoff : ℤ)
    → length rs < 2 ^ 63
    → IsProtocol (run rs (new_limiter backoff)).1
      × (down_after false (run rs (new_limiter backoff)).1
          ≡ is_retrying (run rs (new_limiter backoff)).0)
unfolding run is_retrying new_limiter
run-IsProtocol [] b h = (tt, refl)
run-IsProtocol (true ∷ rs) b h =
    rw (success_at_first (new_limiter b) refl)
      (run-Alternates rs 0 (with_failures (new_limiter b) (pos 0)) refl (omega arith))
run-IsProtocol (false ∷ rs) b h = rw (failure_at_first (new_limiter b) refl) (
    let (alternates, agrees) =
      run-Alternates rs 0 (with_failures (new_limiter b) (pos 0)) refl (omega arith) in
    (Alternates-IsProtocol (run rs (with_failures (new_limiter b) (pos 0))).1 alternates, agrees))

Alternates-no-connected :
    (down : Bool) (ms : List ConnectionState) → Alternates down ms → All (λ m. m ≢ connected) ms
Alternates-no-connected down [] h = tt
Alternates-no-connected false (failed ∷ ms) h = (λ e. cc, Alternates-no-connected true ms h)
Alternates-no-connected true (recovered ∷ ms) h = (λ e. cc, Alternates-no-connected false ms h)
Alternates-no-connected true (connected ∷ ms) h = absurd h
Alternates-no-connected false (connected ∷ ms) h = absurd h
Alternates-no-connected true (failed ∷ ms) h = absurd h
Alternates-no-connected false (recovered ∷ ms) h = absurd h
Alternates-no-connected true (stopped ∷ ms) h = absurd h
Alternates-no-connected false (stopped ∷ ms) h = absurd h

run_of_successes :
    (n : ℕ) (l : Limiter) → l.connection_failures ≡ pos 0 → (run (replicate n true) l).1 ≡ []
unfolding run
run_of_successes zero l e = refl
run_of_successes (suc n) l e =
    rw (success_while_up l e) (run_of_successes n (with_failures l (pos 0)) refl)

-- If the very first attempt fails, `Connected` is never sent, whatever follows in fewer than
-- 2^63 - 2 further attempts; and if from then on every attempt succeeds, nothing at all is sent.
pub run_first_failure :
    (rs : List Bool) (n : ℕ) (backoff : ℤ)
    → length rs + 1 < 2 ^ 63
    → All (λ m. m ≢ connected) (run (false ∷ rs) (new_limiter backoff)).1
      × ((run (false ∷ replicate n true) (new_limiter backoff)).1 ≡ [])
unfolding run new_limiter
run_first_failure rs n b h = rw (failure_at_first (new_limiter b) refl) (
    let l : Limiter = with_failures (new_limiter b) (pos 0) in
    (
      Alternates-no-connected false _ (run-Alternates rs 0 l refl (omega arith)).0,
      run_of_successes n l refl,
    ))

-- The failures since the last success, counted on from `k`.
abbrev pub trailing_failures : ℕ → List Bool → ℕ
trailing_failures k [] = k
trailing_failures k (true ∷ rs) = trailing_failures 0 rs
trailing_failures k (false ∷ rs) = trailing_failures (suc k) rs

run-trailing_failures :
    (rs : List Bool) (k : ℕ) (l : Limiter)
    → l.connection_failures ≡ pos k
    → k + length rs < 2 ^ 63
    → (run rs l).0 ≡ with_failures l (pos (trailing_failures k rs))
unfolding run
run-trailing_failures [] k l e h = ground arith
run-trailing_failures (true ∷ rs) zero l e h =
    rw (success_while_up l e)
      (run-trailing_failures rs 0 (with_failures l (pos 0)) refl (omega arith))
run-trailing_failures (true ∷ rs) (suc k) l e h =
    rw (success_while_down l k e)
      (run-trailing_failures rs 0 (with_failures l (pos 0)) refl (omega arith))
run-trailing_failures (false ∷ rs) zero l e h =
    rw (failure_while_up l e)
      (run-trailing_failures rs 1 (with_failures l (pos 1)) refl (omega arith))
run-trailing_failures (false ∷ rs) (suc k) l e h = rw (failure_while_down l k e (omega arith)) (
    run-trailing_failures rs (suc (suc k)) (with_failures l (pos (suc (suc k)))) refl (omega arith))

first_report :
    (r : Bool) (b : ℤ) → (report_result r (new_limiter b)).0 ≡ with_failures (new_limiter b) (pos 0)
first_report true b = rw (success_at_first (new_limiter b) (unfold new_limiter in refl))
first_report false b = rw (failure_at_first (new_limiter b) (unfold new_limiter in refl))

-- An attempt that is not the first, made before the limiter is closed, waits for the backoff
-- duration exactly if an attempt has failed since the last success, the first attempt of all not
-- counted; once the limiter is closed an attempt is refused, whatever came before.
pub allow-run :
    (r : Bool) (rs : List Bool) (backoff : ℤ)
    → length rs < 2 ^ 63
    → let l : Limiter = (run (r ∷ rs) (new_limiter backoff)).0 in
      (allow l ≡ granted (if ltb 0 (trailing_failures 0 rs) then some backoff else none))
      × (allow (close l) ≡ client_closed)
unfolding allow close run new_limiter
allow-run r rs b h =
    rw
      (
        first_report r b,
        run-trailing_failures rs 0 (with_failures (new_limiter b) (pos 0)) refl (omega arith),
      )
      (ground arith, refl)
