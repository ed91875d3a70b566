-- ===== src/Tests/Servers.antt =====
-- What goes to redis, at concrete data.
use telemd.Base.{◌≡◌, refl, true, false, some, [], ◌∷◌, Text, codes, arith, text_dec}
use telemd.Base.Int.{pos}
use telemd.Go.Strings.{split}
use telemd.Telem.{Telemetry, unix_time_string, is_empty}
use telemd.Telem.Stamp.{at}
use telemd.Server.{report, serve, payload, no_message, send, update_node_info, ignore}
use telemd.Server.Wire.{report-split}
use telemd.Daemon.{pause}
use telemd.Tests.Measures.{whole_numbers}

abbrev cpu_load : Telemetry whole_numbers
cpu_load = record {
  node = codes "n";
  topic = codes "rd/sda";
  time = at 1606436822 75;
  value = pos 12;
}

cpu_load_full : is_empty whole_numbers cpu_load ≡ false
unfolding is_empty text_dec
cpu_load_full = refl

report-split_example :
    (channel message stamp : Text) × (report whole_numbers cpu_load
      ≡ some (some (channel, message)))
    × (split channel b'/' ≡ codes "telem" ∷ codes "n" ∷ split (codes "rd/sda") b'/')
    × (unix_time_string (at 1606436822 75) ≡ some stamp)
    × (split message b' ' ≡ stamp ∷ split (whole_numbers.format (pos 12)) b' ')
report-split_example =
    report-split whole_numbers cpu_load 1606436822 75 refl (omega arith) (omega arith) (omega arith)
      cpu_load_full (omega arith, tt)

serving :
    serve (payload (codes "pause") ∷ payload (codes "info") ∷ payload (codes "x") ∷ no_message ∷ [])
    ≡ (send pause ∷ update_node_info ∷ ignore ∷ [], true)
unfolding serve text_dec
serving = refl
