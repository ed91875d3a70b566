-- ===== src/Tests/Traffics.antt =====
-- The telemetry channel at concrete events.
use telemd.Base.{◌≡◌, refl, true, some, List, [], ◌∷◌, ◌++◌, codes, text_dec}
use telemd.Base.Int.{pos}
use telemd.Telem.{Telemetry, is_empty, unix_time_string}
use telemd.Telem.Stamp.{at}
use telemd.Telem.Channel.{Outcome, done, panics, and_then}
use telemd.Telem.Channel
use telemd.Server.{report}
use telemd.Server.Traffic.{Event, put, turn, close, Traffic, quiet, publish, step, run}
use telemd.Server.Traffic.Order.{puts_in, report_all, published_in_order}
use telemd.Tests.Measures.{whole_numbers}

abbrev first : Telemetry whole_numbers
first = record { node = codes "n"; topic = codes "cpu"; time = at 16 5; value = pos 12 }

abbrev second : Telemetry whole_numbers
second = record { node = codes "n"; topic = codes "ram"; time = at 17 5; value = pos 3 }

-- Both are received, the channel is closed, and the loop goes on.
abbrev day : List (Event whole_numbers)
day = put first ∷ put second ∷ turn ∷ turn ∷ close ∷ turn ∷ turn ∷ []

abbrev evening : Traffic whole_numbers
evening = record {
  channel = record { sending = []; closed = true };
  published = (codes "telem/n/cpu", codes "16.5 12") ∷ (codes "telem/n/ram", codes "17.5 3") ∷ [];
}

day_lem : run whole_numbers day (quiet whole_numbers) ≡ done evening
unfolding run and_then step Channel.put Channel.receive_telemetry publish report is_empty text_dec
    unix_time_string Channel.close
day_lem = refl

published_in_order_example :
    (sent : List (Telemetry whole_numbers)) × (puts_in whole_numbers day ≡ sent ++ [])
    × (report_all whole_numbers sent ≡ some evening.published)
    × (true ≡ true → ◌≡◌ {A = List (Telemetry whole_numbers)} [] [])
published_in_order_example = published_in_order whole_numbers day evening refl day_lem
