-- ===== src/Server/Reporting/Single.antt =====
-- The reporter with goroutines that are prompt: one loop, and the telemetry in order.
use telemd.Base.{
  ◌+◌, ◌≤◌, ◌≡◌, refl, true, false, List, [], ◌∷◌, ◌++◌, length, length-append, arith, append_assoc,
  append-nil, ◌∙◌, ap, sym, ◌↔◌,
}
use telemd.Server.Reporting.{
  Reporting, prompt, Step, Reach, connect, fail, run, stop_running, stop_not_running, receive,
  stopped, publish, here, next, loops,
}

module _ {A : Type 0} where
  -- What holds where all are prompt.
  record IsSingle (s : Reporting A) : Type 0 where
    at_most_one : loops s ≤ 1
    flag_set : s.running ≡ true → loops s ≡ 1
    flag_reset : s.running ≡ false → loops s ≡ 0
    while_up : s.up ≡ true → (s.stopping ≡ 0) × (s.starting + loops s ≡ 1 + s.buffered)
    while_down : s.up ≡ false → (s.starting ≡ 0) × (loops s ≡ s.stopping + s.buffered)

  Step-IsSingle : {s t : Reporting A} → Step prompt s t → IsSingle s → IsSingle t
  Step-IsSingle (connect d z) h = ground arith
  Step-IsSingle (fail u z) h = ground arith
  Step-IsSingle (run e z) h = ground arith
  Step-IsSingle (stop_running e r b) h = ground arith
  Step-IsSingle (stop_not_running e r) h = ground arith
  Step-IsSingle {s} (receive t e) h = ground (arith, length-append s.in_flight (t ∷ []))
  Step-IsSingle (stopped e b) h = ground arith
  Step-IsSingle (publish xs t ys u e) h =
      ground (arith, length-append xs (t ∷ ys), length-append xs ys)

  Reach-IsSingle : {s : Reporting A} → Reach prompt s → IsSingle s
  Reach-IsSingle here = ground arith
  Reach-IsSingle (next r st) = Step-IsSingle st (Reach-IsSingle r)

  abbrev IsInOrder : Reporting A → Type 0
  IsInOrder s = s.taken ≡ s.published ++ s.in_flight

  only_one :
      (xs : List A) (t : A) (ys : List A)
      → length (xs ++ (t ∷ ys)) ≤ 1
      → (xs ++ ys ≡ []) × (xs ++ (t ∷ ys) ≡ t ∷ [])
  only_one [] t [] h = (refl, refl)
  only_one [] t (y ∷ ys) h = absurd (omega arith)
  only_one (x ∷ xs) t ys h = absurd (omega (arith, length-append xs (t ∷ ys)))

  publish-IsInOrder :
      (published in_flight xs : List A) (t : A) (ys : List A)
      → length in_flight ≤ 1
      → in_flight ≡ xs ++ (t ∷ ys)
      → published ++ in_flight ≡ (published ++ (t ∷ [])) ++ (xs ++ ys)
  publish-IsInOrder published in_flight xs t ys h e =
      let single : length (xs ++ (t ∷ ys)) ≤ 1 = rw (sym e) h in
      let (e_rest, e_all) = only_one xs t ys single in rw (e, e_all, e_rest, append-nil) refl

  Step-IsInOrder : {s t : Reporting A} → Step prompt s t → IsSingle s → IsInOrder s → IsInOrder t
  Step-IsInOrder (connect d z) _ h = h
  Step-IsInOrder (fail u z) _ h = h
  Step-IsInOrder (run e z) _ h = h
  Step-IsInOrder (stop_running e r b) _ h = h
  Step-IsInOrder (stop_not_running e r) _ h = h
  Step-IsInOrder {s} (receive t e) _ h =
      ap (λ l. l ++ (t ∷ [])) h ∙ append_assoc s.published s.in_flight (t ∷ [])
  Step-IsInOrder (stopped e b) _ h = h
  Step-IsInOrder {s} (publish xs t ys u e) single h =
      h ∙ publish-IsInOrder s.published s.in_flight xs t ys (omega (arith, single.at_most_one)) e

  Reach-IsInOrder : {s : Reporting A} → Reach prompt s → IsInOrder s
  Reach-IsInOrder here = refl
  Reach-IsInOrder (next r st) = Step-IsInOrder st (Reach-IsSingle r) (Reach-IsInOrder r)

  -- Where all are prompt there is one loop at most whatever the connection does, with `running` set
  -- exactly where there is one, and the telemetry is published in the order in which it is
  -- received, none twice and none left out but that which is being published.
  pub one_loop :
      {s : Reporting A}
      → Reach prompt s
      → (loops s ≤ 1) × (s.running ≡ true ↔ loops s ≡ 1) × (s.taken ≡ s.published ++ s.in_flight)
  one_loop {s} r =
      let single = Reach-IsSingle r in
      (single.at_most_one, (single.flag_set, λ e. ground (arith, single)), Reach-IsInOrder r)
