-- ===== src/Telem/Channel.antt =====
-- internal/telem/telem.go: the channel of telemetry between the instruments and the reporter.
use telemd.Base.{Bool, true, false, List, [], ◌∷◌, ◌++◌, if◌then◌else◌}

-- What an operation comes to: a result, a wait until another goroutine moves, or a panic.
pub data Outcome {ℓ} (B : Type ℓ) : Type ℓ where
  done : B → Outcome B
  waits panics : Outcome B

unfoldable pub and_then {ℓ ℓ'} :
    {B : Type ℓ} {C : Type ℓ'} → Outcome B → (B → Outcome C) → Outcome C
and_then (done b) f = f b
and_then waits f = waits
and_then panics f = panics

-- An unbuffered channel, with the values of the goroutines that are in `Put`, in their order.
pub record TelemetryChannel (A : Type 0) : Type 0 where
  pub sending : List A
  pub closed : Bool

module _ {A : Type 0} where
  abbrev pub new_telemetry_channel : TelemetryChannel A
  new_telemetry_channel = record { sending = []; closed = false }

  -- The goroutine stays in its `Put` until the value is received.
  unfoldable pub put : A → TelemetryChannel A → Outcome (TelemetryChannel A)
  put t c = if c.closed then panics else done (record c { sending = c.sending ++ (t ∷ []) })

  -- `<-t.Channel()`, with the zero value that a closed channel gives.
  unfoldable pub receive_telemetry : A → TelemetryChannel A → Outcome (A × TelemetryChannel A)
  receive_telemetry zero_value c = elim c.sending [
    | t ∷ rest ↦ done (t, record c { sending = rest })
    | [] ↦ if c.closed then done (zero_value, c) else waits
  ]

  -- A goroutine that is in `Put` then panics, and so does a second `Close`.
  unfoldable pub close : TelemetryChannel A → Outcome (TelemetryChannel A)
  close c = elim c.sending [
    | t ∷ rest ↦ panics
    | [] ↦ if c.closed then panics else done (record c { closed = true })
  ]
