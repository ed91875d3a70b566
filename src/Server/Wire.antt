-- ===== src/Server/Wire.antt =====
-- What a reader of the redis messages and of the node's hash gets back.
use telemd.Base.{
  ℕ, ◌+◌, ◌*◌, ◌^◌, ◌≤◌, ◌<◌, ◌≡◌, refl, ap, false, some, List, ◌∷◌, ◌++◌, Text, codes, arith, All,
  ◌∙◌, text_dec,
}
use telemd.Base.Dict
use telemd.Go.Strings.{split, join}
use telemd.Go.Split.{Lacks, split-append, split-join, Lacks-append}
use telemd.Go.Decimal.{format, format-Lacks}
use telemd.Go.Float.{Floats}
use telemd.Telem.{Telemetry, is_empty, unix_time_string}
use telemd.Telem.Stamp.{at, unix_time_string_lem}
use telemd.Server.{NodeInfo, text_value, write_node_info, channel_of, message_of, report}

-- A reader who looks up the fields `disk` and `net` of the hash that `WriteNodeInfo` sets, and
-- splits them at the blanks, gets the devices back, if there is one at least of each kind and
-- their names have no blanks.
pub write_node_info-devices :
    (info : NodeInfo) (d n : Text) (ds ns : List Text)
    → info.disk ≡ d ∷ ds
    → info.net ≡ n ∷ ns
    → All (Lacks b' ') (d ∷ ds)
    → All (Lacks b' ') (n ∷ ns)
    → (v w : Text) × (Dict.lookup (codes "disk") (write_node_info info) ≡ some (text_value v))
      × (split v b' ' ≡ info.disk)
      × (Dict.lookup (codes "net") (write_node_info info) ≡ some (text_value w))
      × (split w b' ' ≡ info.net)
unfolding write_node_info Dict.lookup text_dec
write_node_info-devices info d n ds ns e f h k = (
  join info.disk (codes " "),
  join info.net (codes " "),
  refl,
  rw (e, split-join b' ' d ds h) refl,
  refl,
  rw (f, split-join b' ' n ns k) refl,
)

telem-Lacks : Lacks b'/' (codes "telem")
telem-Lacks = (omega arith, (omega arith, (omega arith, (omega arith, (omega arith, tt)))))

-- A telemetry that is not the empty one, taken between 2001 and 2262 on a node whose name has no
-- slash, is published on a channel that splits at its slashes into `telem`, the node and the parts
-- of the topic, with a message that begins with its time stamp and a blank.
pub report-split :
    (F : Floats) (t : Telemetry F) (s n : ℕ)
    → t.time ≡ at s n
    → 10 ^ 9 ≤ s
    → n < 10 ^ 9
    → s * 10 ^ 9 + n < 2 ^ 63
    → is_empty F t ≡ false
    → Lacks b'/' t.node
    → (channel message stamp : Text) × (report F t ≡ some (some (channel, message)))
      × (split channel b'/' ≡ codes "telem" ∷ t.node ∷ split t.topic b'/')
      × (unix_time_string t.time ≡ some stamp)
      × (split message b' ' ≡ stamp ∷ split (F.format t.value) b' ')
unfolding report channel_of message_of
report-split F t s n e h k l full lacks = (
  channel_of F t,
  (format s ++ (b'.' ∷ format n)) ++ (b' ' ∷ F.format t.value),
  format s ++ (b'.' ∷ format n),
  rw (full, e, unix_time_string_lem s n h k l) refl,
  split-append b'/' (codes "telem") (t.node ++ (b'/' ∷ t.topic)) telem-Lacks
      ∙ ap (λ r. codes "telem" ∷ r) (split-append b'/' t.node t.topic lacks),
  rw (e, unix_time_string_lem s n h k l) refl,
  split-append b' ' (format s ++ (b'.' ∷ format n)) (F.format t.value) (
      Lacks-append b' ' (format s) (b'.' ∷ format n) (format-Lacks b' ' s (omega arith))
        (omega arith, format-Lacks b' ' n (omega arith))),
)
