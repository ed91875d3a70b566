-- ===== src/Redis/Client.antt =====
-- internal/redis/redis.go: the client with its limiter and the channel of connection states.
-- The redis library's options and client are not code of the repository: a client is only what
-- this repository adds to it.
use telemd.Base.{◌≡◌, refl, zero, suc, Bool, true, false, Option, none, some, List, [], ◌∷◌, arith}
use telemd.Base.{ℕ, ◌^◌, ◌-◌, if◌then◌else◌}
use telemd.Base.Int.{ℤ, pos, negsuc, add64, IsInt64}
use telemd.Redis.Limiter.{
  ConnectionState, stopped, Limiter, new_limiter, Allowed, allow, client_closed,
}
use telemd.Redis.Limiter.{report_result}
use telemd.Redis.Limiter

pub record ReconnectingClient : Type 0 where
  pub limiter : Limiter
  -- Whether `close(c.ConnectionState)` has not run yet.
  pub channel_open : Bool
  -- `options.MaxRetries`: how often the library repeats an attempt that failed.
  pub max_retries : ℕ

unfoldable pub new_reconnecting_client : ℤ → ReconnectingClient
new_reconnecting_client backoff = record {
  limiter = new_limiter backoff;
  channel_open = true;
  max_retries = 2 ^ 31 - 1;
}

-- `ParseURL` of the redis library is the argument; the error is passed on.
unfoldable pub new_reconnecting_client_from_url {ℓ} :
    {Url : Type ℓ} {Options : Type ℓ} → (Url → Option Options) → Url → ℤ → Option ReconnectingClient
unfolding new_reconnecting_client
new_reconnecting_client_from_url parse_url url backoff = elim (parse_url url) [
  | none ↦ none
  | some options ↦ some (new_reconnecting_client backoff)
]

-- The final message, then the limiter refuses, then the channel is closed.
unfoldable pub close : ReconnectingClient → ReconnectingClient × List ConnectionState
close c = (record c { limiter = Limiter.close c.limiter; channel_open = false }, stopped ∷ [])

-- A report that reaches the client's channel; `none` is the panic of a send on a closed channel.
unfoldable pub report :
    Bool → ReconnectingClient → Option (ReconnectingClient × List ConnectionState)
report success c =
    let (l, sent) = report_result success c.limiter in
    elim sent [
      | [] ↦ some (record c { limiter = l }, [])
      | m ∷ ms ↦ if c.channel_open then some (record c { limiter = l }, m ∷ ms) else none
    ]

-- Whether a report, of a success or of a failure, sends a message: the first success of a new
-- client, the end of a failure, or the first failure behind a success.
abbrev pub announces : Bool → ℤ → Bool
announces true (negsuc zero) = true
announces true (pos (suc n)) = true
announces false (pos zero) = true
announces _ _ = false

report_on_closed :
    (c : ReconnectingClient) (success : Bool) (failures : ℤ)
    → c.channel_open ≡ false
    → c.limiter.connection_failures ≡ failures
    → IsInt64 failures
    → report success c ≡ (
        if announces success failures
        then none
        else some (record c { limiter = (report_result success c.limiter).0 }, []))
unfolding report report_result add64
report_on_closed c true (negsuc zero) shut e h = ground arith
report_on_closed c true (negsuc (suc n)) shut e h = ground arith
report_on_closed c true (pos zero) shut e h = ground arith
report_on_closed c true (pos (suc n)) shut e h = ground arith
report_on_closed c false (negsuc n) shut e h = ground arith
report_on_closed c false (pos zero) shut e h = ground arith
report_on_closed c false (pos (suc n)) shut e h = ground arith

pub allow-report-close :
    (c : ReconnectingClient) (success : Bool)
    → IsInt64 c.limiter.connection_failures
    → let c' : ReconnectingClient = (close c).0 in
      (allow c'.limiter ≡ client_closed)
      × (report success c' ≡ (
          if announces success c.limiter.connection_failures
          then none
          else some (record c' { limiter = (report_result success c'.limiter).0 }, [])))
unfolding allow close Limiter.close
allow-report-close c s h =
    (refl, report_on_closed (close c).0 s c.limiter.connection_failures refl refl h)
