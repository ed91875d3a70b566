-- ===== src/Redis/Limiter.antt =====
-- internal/redis/limiter.go: the callback that the redis client asks before an attempt and tells
-- about its result. A send on `connectionStateChan` is a message in the operation's output.
use telemd.Base.{Bool, true, false, Option, none, some, List, [], ◌∷◌, ◌++◌}
use telemd.Base.{if◌then◌else◌}
use telemd.Base.Int.{ℤ, pos, negsuc, add64, eqb_ℤ, ltb_ℤ}

pub data ConnectionState : Type 0 where
  connected failed recovered stopped : ConnectionState

-- The channel itself is shared with the client; the rest of the struct is the state.
pub record Limiter : Type 0 where
  pub backoff_duration : ℤ
  pub connection_failures : ℤ
  pub closed : Bool

unfoldable pub new_limiter : ℤ → Limiter
new_limiter backoff = record {
  backoff_duration = backoff;
  connection_failures = negsuc 0;
  closed = false;
}

unfoldable pub close : Limiter → Limiter
close l = record l { closed = true }

-- What `Allow` returns: `ClientClosedError`, or nil after a sleep of the given length, if any.
pub data Allowed : Type 0 where
  client_closed : Allowed
  granted : Option ℤ → Allowed

unfoldable pub allow : Limiter → Allowed
allow l =
    if l.closed
    then client_closed
    else if ltb_ℤ (pos 0) l.connection_failures
    then granted (some l.backoff_duration)
    else granted none

-- What `ReportResult(nil)` sends.
pub announced : ℤ → List ConnectionState
announced failures =
    (if eqb_ℤ failures (negsuc 0) then connected ∷ [] else [])
    ++ (if ltb_ℤ (pos 0) failures then recovered ∷ [] else [])

-- The argument says whether `err == nil`.
unfoldable pub report_result : Bool → Limiter → Limiter × List ConnectionState
unfolding announced
report_result true l = (record l { connection_failures = pos 0 }, announced l.connection_failures)
report_result false l =
    let failures = add64 l.connection_failures (pos 1) in
    (
      record l { connection_failures = failures },
      if eqb_ℤ failures (pos 1) then failed ∷ [] else [],
    )

-- The reports of successive attempts, with all that they send.
unfoldable pub run : List Bool → Limiter → Limiter × List ConnectionState
run [] l = (l, [])
run (r ∷ rs) l =
    let (l', sent) = report_result r l in let (l'', later) = run rs l' in (l'', sent ++ later)

-- `IsRetrying` of the client.
unfoldable pub is_retrying : Limiter → Bool
is_retrying l = ltb_ℤ (pos 0) l.connection_failures
