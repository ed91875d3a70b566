-- ===== src/Server/Traffic/Order.antt =====
-- What comes of the telemetry that the instruments put.
use mathlib.Core.Path.{subst}
use telemd.Base.{
  ◌≡◌, refl, ◌∙◌, sym, ap, true, false, Option, none, some, List, [], ◌∷◌, ◌++◌, Text, >>=-eq-some,
  some-inj, ◌>>=◌, append_assoc, append-nil, Bool, text_dec,
}
use telemd.Go.Float.{Floats}
use telemd.Telem.{Telemetry, is_empty}
use telemd.Telem.Channel.{Outcome, done, waits, panics, and_then, TelemetryChannel}
use telemd.Telem.Channel
use telemd.Server.{report}
use telemd.Server.Traffic.{
  Event, put, turn, close, Traffic, quiet, messages, publish, step, run, empty_telemetry,
}

done-inj {ℓ} : {B : Type ℓ} {a b : B} → done a ≡ done b → a ≡ b
done-inj e = cc

and_then-eq-done {ℓ ℓ'} :
    {B : Type ℓ} {C : Type ℓ'} (o : Outcome B) (f : B → Outcome C) {c : C}
    → and_then o f ≡ done c
    → (b : B) × (o ≡ done b) × (f b ≡ done c)
unfolding and_then
and_then-eq-done (done b) f e = (b, refl, e)
and_then-eq-done waits f e = absurd cc
and_then-eq-done panics f e = absurd cc

module _ (F : Floats) where
  -- What is put, and what a reader of it all would publish.
  unfoldable pub puts_in : List (Event F) → List (Telemetry F)
  puts_in [] = []
  puts_in (put t ∷ es) = t ∷ puts_in es
  puts_in (turn ∷ es) = puts_in es
  puts_in (close ∷ es) = puts_in es

  unfoldable pub report_all : List (Telemetry F) → Option (List (Text × Text))
  report_all [] = some []
  report_all (t ∷ ts) = do
    message ← report F t
    rest ← report_all ts
    some (messages F message ++ rest)

  -- The telemetry put so far, by what has become of it.
  record Carries (ps : List (Telemetry F)) (s : Traffic F) : Type 0 where
    sent : List (Telemetry F)
    parted : ps ≡ sent ++ s.channel.sending
    reported : report_all sent ≡ some s.published
    drained : s.channel.closed ≡ true → s.channel.sending ≡ []

  report_all-snoc :
      (ts : List (Telemetry F)) (t : Telemetry F) (m : Option (Text × Text))
      (published : List (Text × Text))
      → report_all ts ≡ some published
      → report F t ≡ some m
      → report_all (ts ++ (t ∷ [])) ≡ some (published ++ messages F m)
  unfolding report_all
  report_all-snoc [] t m published e h =
      rw (h, sym (some-inj e)) (ap some (append-nil (messages F m)))
  report_all-snoc (u ∷ ts) t m published e h =
      let (message, e_u, e') = >>=-eq-some (report F u) _ e in
      let (rest, e_ts, e_all) = >>=-eq-some (report_all ts) _ e' in
      let assoc = append_assoc (messages F message) rest (messages F m) in
      rw (e_u, report_all-snoc ts t m rest e_ts h)
        (ap some (sym assoc ∙ ap (λ l. l ++ messages F m) (some-inj e_all)))

  report-empty : F.beq F.zero F.zero ≡ true → report F (empty_telemetry F) ≡ some none
  unfolding report is_empty text_dec
  report-empty e = rw e refl

  publish-eq-done :
      (o : Option (Option (Text × Text))) (f : Option (Text × Text) → Traffic F) {s' : Traffic F}
      → (elim o [ none ↦ panics | some message ↦ done (f message) ]) ≡ done s'
      → (m : Option (Text × Text)) × (o ≡ some m) × (f m ≡ s')
  publish-eq-done none f e = absurd cc
  publish-eq-done (some m) f e = (m, refl, done-inj e)

  abbrev at : List (Telemetry F) → Bool → List (Text × Text) → Traffic F
  at sending closed published = record {
    channel = record { sending = sending; closed = closed };
    published = published;
  }

  put-Carries :
      (t : Telemetry F) {ps : List (Telemetry F)} (sending : List (Telemetry F)) (closed : Bool)
      (published : List (Text × Text)) {s' : Traffic F}
      → Carries ps (at sending closed published)
      → step F (put t) (at sending closed published) ≡ done s'
      → Carries (ps ++ (t ∷ [])) s'
  unfolding step Channel.put and_then
  put-Carries t sending true published h e = absurd cc
  put-Carries t sending false published h e = subst (Carries _) (done-inj e) (record {
    sent = h.sent;
    parted = ap (λ l. l ++ (t ∷ [])) h.parted ∙ append_assoc h.sent sending (t ∷ []);
    reported = h.reported;
    drained = λ closed. absurd cc;
  })

  turn-Carries :
      F.beq F.zero F.zero ≡ true
      → {ps : List (Telemetry F)} (sending : List (Telemetry F)) (closed : Bool)
        (published : List (Text × Text)) {s' : Traffic F}
      → Carries ps (at sending closed published)
      → step F turn (at sending closed published) ≡ done s'
      → Carries ps s'
  unfolding step Channel.receive_telemetry publish and_then
  turn-Carries z [] false published h e = absurd cc
  turn-Carries z [] true published h e =
      let unpublished = report-empty z in
      let (m, e_report, e_state) = publish-eq-done (report F (empty_telemetry F)) _ e in
      let unheard : m ≡ none = some-inj (sym e_report ∙ unpublished) in
      subst (Carries _) e_state (record {
        sent = h.sent;
        parted = h.parted;
        reported = h.reported ∙ ap some (rw unheard (sym (append-nil published)));
        drained = h.drained;
      })
  turn-Carries z (t ∷ rest) closed published h e =
      let (m, e_report, e_state) = publish-eq-done (report F t) _ e in
      subst (Carries _) e_state (record {
        sent = h.sent ++ (t ∷ []);
        parted = h.parted ∙ sym (append_assoc h.sent (t ∷ []) rest);
        reported = report_all-snoc h.sent t m published h.reported e_report;
        drained = λ closed. absurd (cc (h.drained closed));
      })

  close-Carries :
      {ps : List (Telemetry F)} (sending : List (Telemetry F)) (closed : Bool)
      (published : List (Text × Text)) {s' : Traffic F}
      → Carries ps (at sending closed published)
      → step F close (at sending closed published) ≡ done s'
      → Carries ps s'
  unfolding step Channel.close and_then
  close-Carries [] true published h e = absurd cc
  close-Carries [] false published h e =
      subst (Carries _) (done-inj e) (record {
        sent = h.sent;
        parted = h.parted;
        reported = h.reported;
        drained = λ closed. refl;
      })
  close-Carries (t ∷ rest) closed published h e = absurd cc

  step-Carries :
      F.beq F.zero F.zero ≡ true
      → (e : Event F) {ps : List (Telemetry F)} (s : Traffic F) {s' : Traffic F} → Carries ps s
      → step F e s ≡ done s'
      → Carries (ps ++ puts_in (e ∷ [])) s'
  unfolding puts_in
  step-Carries z (put t) s h e = put-Carries t s.channel.sending s.channel.closed s.published h e
  step-Carries z turn s {s'} h e =
      subst (λ l. Carries l s') (sym (append-nil _))
        (turn-Carries z s.channel.sending s.channel.closed s.published h e)
  step-Carries z close s {s'} h e =
      subst (λ l. Carries l s') (sym (append-nil _))
        (close-Carries s.channel.sending s.channel.closed s.published h e)

  puts_in-cons :
      (e : Event F) (es : List (Event F)) → puts_in (e ∷ es) ≡ puts_in (e ∷ []) ++ puts_in es
  unfolding puts_in
  puts_in-cons (put t) es = refl
  puts_in-cons turn es = refl
  puts_in-cons close es = refl

  run-Carries :
      F.beq F.zero F.zero ≡ true
      → (es : List (Event F)) {ps : List (Telemetry F)} (s : Traffic F) {s' : Traffic F}
      → Carries ps s
      → run F es s ≡ done s'
      → Carries (ps ++ puts_in es) s'
  unfolding run puts_in
  run-Carries z [] {ps} s h e =
      subst (Carries _) (done-inj e) (subst (λ l. Carries l s) (sym (append-nil ps)) h)
  run-Carries z (e ∷ es) {ps} s {s'} h f =
      let (s₁, e_step, e_rest) = and_then-eq-done (step F e s) (run F es) f in
      subst (λ l. Carries l s')
        (append_assoc ps (puts_in (e ∷ [])) (puts_in es)
          ∙ ap (λ l. ps ++ l) (sym (puts_in-cons e es)))
        (run-Carries z es s₁ (step-Carries z e s h e_step) e_rest)

  -- Where instruments put telemetry, the reporter has its turns when there is something to receive,
  -- and nothing panics, what the reporter has published are the messages of the telemetry that was
  -- put, each once and in order, but for that whose `Put` has not returned; and if the channel has
  -- been closed there is none such. The turns behind that publish nothing. This is for floats whose
  -- zero is equal to itself.
  pub published_in_order :
      (es : List (Event F)) (s : Traffic F)
      → F.beq F.zero F.zero ≡ true
      → run F es (quiet F) ≡ done s
      → (sent : List (Telemetry F)) × (puts_in es ≡ sent ++ s.channel.sending)
        × (report_all sent ≡ some s.published)
        × (s.channel.closed ≡ true → s.channel.sending ≡ [])
  unfolding report_all
  published_in_order es s z e =
      let h : Carries (puts_in es) s =
        run-Carries z es (quiet F)
          (record { sent = []; parted = refl; reported = refl; drained = λ closed. refl }) e in
      (h.sent, h.parted, h.reported, h.drained)
