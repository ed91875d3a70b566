-- ===== src/Server/Traffic.antt =====
-- The telemetry channel between the instruments and one loop of the reporter, which publishes what
-- it receives: internal/telem/telem.go with `Run` and `report` of internal/telemd/redis.go. Redis
-- answers each publication without an error.
pub mod Order
pub mod Topics
use telemd.Base.{Option, none, some, List, [], ◌∷◌, ◌++◌, Text}
use telemd.Go.Float.{Floats}
use telemd.Telem.{Telemetry, zero_time}
use telemd.Telem.Channel.{Outcome, done, panics, and_then, TelemetryChannel, new_telemetry_channel}
use telemd.Telem.Channel
use telemd.Server.{report}

module _ (F : Floats) where
  abbrev pub empty_telemetry : Telemetry F
  empty_telemetry = record { node = []; topic = []; time = zero_time F; value = F.zero }

  -- A `Put` of an instrument, a turn of the reporter's loop, and the `Close` of the daemon.
  pub data Event : Type 0 where
    put : Telemetry F → Event
    turn close : Event

  pub record Traffic : Type 0 where
    pub channel : TelemetryChannel (Telemetry F)
    pub published : List (Text × Text)

  abbrev pub quiet : Traffic
  quiet = record { channel = new_telemetry_channel; published = [] }

  abbrev pub messages : Option (Text × Text) → List (Text × Text)
  messages none = []
  messages (some message) = message ∷ []

  -- The loop publishes what it has received; a panic is that of `report`.
  unfoldable pub publish :
      List (Text × Text) → Telemetry F × TelemetryChannel (Telemetry F) → Outcome Traffic
  publish published (t, channel) = elim (report F t) [
    | none ↦ panics
    | some message ↦ done (record { channel = channel; published = published ++ messages message })
  ]

  unfoldable pub step : Event → Traffic → Outcome Traffic
  step (put t) s = and_then (Channel.put t s.channel) (λ c. done (record s { channel = c }))
  step turn s = and_then (Channel.receive_telemetry empty_telemetry s.channel) (publish s.published)
  step close s = and_then (Channel.close s.channel) (λ c. done (record s { channel = c }))

  unfoldable pub run : List Event → Traffic → Outcome Traffic
  run [] s = done s
  run (e ∷ es) s = and_then (step e s) (run es)
