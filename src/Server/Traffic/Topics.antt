-- ===== src/Server/Traffic/Topics.antt =====
-- From the instruments of a daemon over the telemetry channel to redis: under which channels their
-- measurements are published.
use mathlib.Core.Path.{subst}
use mathlib.Core.List.{Memᴰ}
use mathlib.Core.List.Memᴰ.{head, tail}
use telemd.Base.{
  ◌≡◌, ◌≢◌, refl, sym, ap, ◌∙◌, true, Option, none, some, List, [], ◌∷◌, ◌++◌, Text, codes, All,
  All-append, >>=-eq-some, some-inj, Bool-cases, inl, inr,
}
use telemd.Base.Dict
use telemd.Go.Float.{Floats}
use telemd.Go.Time.{Time}
use telemd.Host.{Host, Moment}
use telemd.Instrument.{Instrument}
use telemd.Measure.Dispatch.{Measured, measure_and_report}
use telemd.Measure.Dispatch.Names.{name_of, BelongsTo}
use telemd.Measure.Dispatch.Owners.{measure_and_report-IsOwn}
use telemd.Cfg.{Config}
use telemd.Daemon.{Daemon, new_daemon}
use telemd.Daemon.Names.{kept_name}
use telemd.Telem.{Telemetry, is_empty, new_telemetry}
use telemd.Telem.Channel.{done}
use telemd.Server.{report, channel_of, message_of}
use telemd.Server.Traffic.{Event, Traffic, quiet, messages, run}
use telemd.Server.Traffic.Order.{puts_in, report_all, published_in_order}

All-left {ℓ κ} : {A : Type ℓ} (P : A → Type κ) (xs ys : List A) → All P (xs ++ ys) → All P xs
All-left P [] ys h = tt
All-left P (x ∷ xs) ys (p, h) = (p, All-left P xs ys h)

All-Memᴰ {ℓ κ} : {A : Type ℓ} (P : A → Type κ) {x : A} (xs : List A) → All P xs → Memᴰ x xs → P x
All-Memᴰ P [] h among = elim among [ ]
All-Memᴰ P (y ∷ xs) (p, h) (head e) = subst P (sym e) p
All-Memᴰ P (y ∷ xs) (p, h) (tail m) = All-Memᴰ P xs h m

module _ (F : Floats) (H : Host) where
  -- An instrument behind any number of its measurements.
  pub data Becomes (i : Instrument) : Instrument → Type 0 where
    unmeasured : Becomes i i
    measured :
        {j : Instrument}
        → (files : List Text) (order : List Text → List Text) (m : Moment) (r : Measured F)
        → Becomes i j
        → measure_and_report F H files order m j ≡ some r
        → Becomes i r.instrument

  name_of-Becomes : {i j : Instrument} → Becomes i j → name_of j ≡ name_of i
  name_of-Becomes unmeasured = refl
  name_of-Becomes (measured {j} files order m r b e) =
      (measure_and_report-IsOwn F H files order m j e).1 ∙ name_of-Becomes b

  -- Telemetry that a measurement of an instrument of the daemon puts, by `NewTelemetry`.
  pub record Origin (node : Text) (d : Daemon) (t : Telemetry F) : Type 0 where
    pub name : Text
    pub kept : Instrument
    pub instrument : Instrument
    pub files : List Text
    pub order : List Text → List Text
    pub moment : Moment
    pub measurement : Measured F
    pub topic : Text
    pub value : F.Float
    pub time : Time
    pub stands : Dict.lookup name d.instruments ≡ some kept
    pub became : Becomes kept instrument
    pub ran : measure_and_report F H files order moment instrument ≡ some measurement
    pub among : Memᴰ (topic, value) measurement.puts
    pub made : t ≡ new_telemetry F node time topic value

  -- A message under a channel that belongs to an instrument of the daemon.
  pub record IsOwned (node : Text) (d : Daemon) (message : Text × Text) : Type 0 where
    pub name : Text
    pub topic : Text
    pub stands : Dict.lookup name d.instruments ≢ none
    pub channel : message.0 ≡ codes "telem/" ++ (node ++ (b'/' ∷ topic))
    pub owned : BelongsTo name topic

  report-channel :
      (t : Telemetry F) {message : Text × Text}
      → report F t ≡ some (some message)
      → message.0 ≡ channel_of F t
  unfolding report
  report-channel t e = elim (Bool-cases (is_empty F t)) [
    | inl empty ↦ absurd (cc (rw empty at e))
    | inr full ↦
        let (text, _, e') = >>=-eq-some (message_of F t) _ (rw full at e) in
        ap (λ (m : Text × Text). m.0) (sym (some-inj (some-inj e')))
  ]

  report-IsOwned :
      (m : Moment) (cfg : Config) (d : Daemon) (node : Text) (t : Telemetry F)
      {message : Text × Text}
      → new_daemon H m cfg ≡ some d
      → Origin node d t
      → report F t ≡ some (some message)
      → IsOwned node d message
  unfolding new_telemetry channel_of
  report-IsOwned m cfg d node t made o e = record {
    name = o.name;
    topic = o.topic;
    stands = λ absent. absurd (cc (o.stands));
    channel = report-channel t e ∙ ap (channel_of F) o.made;
    owned =
        All-Memᴰ (λ p. BelongsTo (name_of o.instrument) p.0) o.measurement.puts
          (measure_and_report-IsOwn F H o.files o.order o.moment o.instrument o.ran).0 o.among
        ∙ name_of-Becomes o.became
        ∙ kept_name H m cfg d o.name o.kept made o.stands;
  }

  messages-All {κ} :
      {Q : Text × Text → Type κ} (m : Option (Text × Text))
      → ((message : Text × Text) → m ≡ some message → Q message)
      → All Q (messages F m)
  messages-All none f = tt
  messages-All (some message) f = (f message refl, tt)

  report_all-All {κ} :
      {Q : Text × Text → Type κ} {P : Telemetry F → Type 0}
      → ((t : Telemetry F) (message : Text × Text)
          → P t
          → report F t ≡ some (some message)
          → Q message)
      → (ts : List (Telemetry F)) {ms : List (Text × Text)} → All P ts
      → report_all F ts ≡ some ms
      → All Q ms
  unfolding report_all
  report_all-All f [] h e = subst (All _) (some-inj e) tt
  report_all-All f (t ∷ ts) h e =
      let (m, e_t, e') = >>=-eq-some (report F t) _ e in
      let (rest, e_ts, e_all) = >>=-eq-some (report_all F ts) _ e' in
      subst (All _) (some-inj e_all) (
        All-append _ (messages F m) rest
          (messages-All m (λ message e_m. f t message h.0 (e_t ∙ ap some e_m)))
          (report_all-All f ts h.1 e_ts))

  -- Whenever the instruments of a new daemon are measured and put their telemetry, in any order and
  -- over any number of measurements, while the reporter has its turns: every message that has been
  -- published stands under the channel `telem/<node>/<topic>`, where the topic belongs to the name of
  -- an instrument that the daemon has. This is for floats whose zero is equal to itself.
  pub published_topics :
      (m : Moment) (cfg : Config) (d : Daemon) (node : Text) (es : List (Event F)) (s : Traffic F)
      → F.beq F.zero F.zero ≡ true
      → new_daemon H m cfg ≡ some d
      → All (Origin node d) (puts_in F es)
      → run F es (quiet F) ≡ done s
      → All (IsOwned node d) s.published
  published_topics m cfg d node es s z made origins e =
      let (sent, parted, reported, _) = published_in_order F es s z e in
      report_all-All (λ t message o reports. report-IsOwned m cfg d node t made o reports) sent
        (All-left (Origin node d) sent s.channel.sending
          (subst (All (Origin node d)) parted origins))
        reported
