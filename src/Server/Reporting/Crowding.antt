-- ===== src/Server/Reporting/Crowding.antt =====
-- The reporter with goroutines that are not prompt: several loops, and the telemetry out of order.
use mathlib.Core.Path.{subst}
use telemd.Base.{
  ℕ, zero, suc, ◌+◌, ◌≡◌, refl, Bool, true, false, List, [], ◌∷◌, ◌++◌, arith, length, append_assoc,
  append-nil, sym,
}
use telemd.Server.Reporting.{
  Reporting, any_pace, idle, Reach, connect, fail, run, stop_running, stop_not_running, receive,
  stopped, publish, here, next, loops,
}

pub reversed {ℓ} : {A : Type ℓ} → List A → List A
reversed [] = []
reversed (x ∷ xs) = reversed xs ++ (x ∷ [])

module _ {A : Type 0} where
  -- The loops that wait while the connection stands and every `Stop` has been obeyed.
  abbrev at_rest : ℕ → Bool → Reporting A
  at_rest n running = record idle { up = true; waiting = n; running = running }

  -- A failure and a recovery of which the `Run` begins before the value of its `Stop` is taken: the
  -- flag is reset, and a loop goes on.
  unflagged :
      (n : ℕ) → Reach any_pace (at_rest (n + 1) true) → Reach any_pace (at_rest (n + 1) false)
  unflagged n r =
      let stopping = next (next r (fail refl tt)) (stop_running refl refl (omega arith)) in
      let started = next (next stopping (connect refl tt)) (run refl tt) in
      next started (stopped {n = n + 1} (omega arith) refl)

  -- The next `Stop` does nothing then.
  one_more : (n : ℕ) → Reach any_pace (at_rest n false) → Reach any_pace (at_rest (n + 1) true)
  one_more n r =
      let down = next (next r (fail refl tt)) (stop_not_running refl refl) in
      next (next down (connect refl tt)) (run refl tt)

  at_rest-Reach : (k : ℕ) → Reach any_pace (at_rest (k + 1) true)
  at_rest-Reach zero = next (next here (connect refl tt)) (run refl tt)
  at_rest-Reach (suc k) =
      subst (λ n. Reach any_pace (at_rest (n + 1) true)) (omega arith)
        (one_more (k + 1) (unflagged k (at_rest-Reach k)))

  -- The loops take all of a sequence, and publish it from its end.
  abbrev with_telemetry : ℕ → List A → List A → List A → Reporting A
  with_telemetry w in_flight taken published = record (at_rest w true) {
    in_flight = in_flight;
    taken = taken;
    published = published;
  }

  same :
      {w w' : ℕ} {xs xs' ts ts' ps ps' : List A}
      → w ≡ w'
      → xs ≡ xs'
      → ts ≡ ts'
      → ps ≡ ps'
      → Reach any_pace (with_telemetry w xs ts ps)
      → Reach any_pace (with_telemetry w' xs' ts' ps')
  same e f g h r = rw (sym e, sym f, sym g, sym h) r

  receive_all :
      (w : ℕ) (xs ts : List A)
      → Reach any_pace (with_telemetry (length ts + w) xs xs [])
      → Reach any_pace (with_telemetry w (xs ++ ts) (xs ++ ts) [])
  receive_all w xs [] r = same (omega arith) (sym (append-nil xs)) (sym (append-nil xs)) refl r
  receive_all w xs (t ∷ ts) r =
      let assoc = append_assoc xs (t ∷ []) ts in
      same refl assoc assoc refl
        (receive_all w (xs ++ (t ∷ [])) ts (next r (receive {n = length ts + w} t (omega arith))))

  publish_all :
      (w : ℕ) (xs ts all ps : List A)
      → Reach any_pace (with_telemetry w (xs ++ ts) all ps)
      → Reach any_pace (with_telemetry (w + length ts) xs all (ps ++ reversed ts))
  unfolding reversed
  publish_all w xs [] all ps r = same (omega arith) (append-nil xs) refl (sym (append-nil ps)) r
  publish_all w xs (t ∷ ts) all ps r =
      let later =
        publish_all w (xs ++ (t ∷ [])) ts all ps
          (same refl (sym (append_assoc xs (t ∷ []) ts)) refl refl r) in
      same (omega arith) (append-nil _) refl (append_assoc ps (reversed ts) (t ∷ []))
        (next later (publish xs t [] refl refl))

  -- The goroutines need not be prompt, and the flag is shared: any number of loops can come to run
  -- beside each other while every call of `Run` and `Stop` has been obeyed, and any sequence of
  -- telemetry that is received can be published the other way round.
  pub published_backwards :
      (k : ℕ) (ts : List A)
      → (s : Reporting A) × Reach any_pace s
        × (loops s ≡ length ts + k + 1)
        × (s.starting ≡ 0)
        × (s.stopping ≡ 0)
        × (s.buffered ≡ 0)
        × (s.taken ≡ ts)
        × (s.published ≡ reversed ts)
  published_backwards k ts =
      let resting : Reach any_pace (with_telemetry (length ts + (k + 1)) [] [] []) =
        same (omega arith) refl refl refl (at_rest-Reach (length ts + k)) in
      (
        with_telemetry (k + 1 + length ts) [] ts (reversed ts),
        publish_all (k + 1) [] ts ts [] (receive_all (k + 1) [] ts resting),
        omega arith,
        refl,
        refl,
        refl,
        refl,
        refl,
      )
