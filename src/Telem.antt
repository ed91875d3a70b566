-- ===== src/Telem.antt =====
-- internal/telem/telem.go: a measured value under its topic, and how its time is written.
pub mod Stamp
pub mod Channel
use telemd.Base.{
  Bool, true, false, ◌&&◌, Option, none, some, List, [], ◌∷◌, ◌++◌, Text, codes, equal, text_dec,
  ◌==◌,
}
use telemd.Base.Int.{ℤ, pos, negsuc, eqb_ℤ}
use telemd.Go.Decimal.{format_int}
use telemd.Go.Time.{Time, unix_nano, rem}
use telemd.Go.Float.{Floats}

abbrev pub topic_separator : Text
topic_separator = b'/' ∷ []

-- `fmt.Sprintf("%d.%d", sec, nano % sec)`; `none` is the panic at second 0.
unfoldable pub unix_time_string : Time → Option Text
unfolding format_int unix_nano rem
unix_time_string t = elim (rem (unix_nano t) t.sec) [
  | none ↦ none
  | some fraction ↦ some (format_int t.sec ++ (b'.' ∷ format_int fraction))
]

module _ (F : Floats) where
  pub record Telemetry : Type 0 where
    pub node : Text
    pub topic : Text
    pub time : Time
    pub value : F.Float

  -- `EmptyTelemetry`, with the zero `time.Time`, the start of year 1.
  abbrev pub zero_time : Time
  zero_time = record { sec = negsuc 62135596799; nsec = 0 }

  unfoldable pub is_empty : Telemetry → Bool
  is_empty t =
      equal t.node []
      && equal t.topic []
      && (eqb_ℤ t.time.sec zero_time.sec && (t.time.nsec == 0))
      && F.beq t.value F.zero

  -- `NewTelemetry`, at the node's name and the present time.
  unfoldable pub new_telemetry : Text → Time → Text → F.Float → Telemetry
  new_telemetry node_name now topic value = record {
    node = node_name;
    topic = topic;
    time = now;
    value = value;
  }
