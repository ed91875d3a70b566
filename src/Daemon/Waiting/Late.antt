-- ===== src/Daemon/Waiting/Late.antt =====
-- internal/telemd/daemon.go and ticker.go: measurements that go on behind the end of their ticker.
use telemd.Base.{ℕ, zero, suc, ◌+◌, ◌≡◌, refl, true, false, arith, sym}
use telemd.Daemon.Waiting.{
  Waiting, Schedule, Reach, here, next, spawn, add, done, wait_returns, commands_return, close,
  tick, put_closed, adds_first, any_order, closed_under_tickers,
}

-- Before the end of `Run`, with the counter that the goroutines have made.
abbrev stage : ℕ → ℕ → ℕ → ℕ → Waiting
stage unspawned active finished measuring = record {
  tickers = record { unspawned = unspawned; pending = 0; active = active; finished = finished };
  counter = active;
  commands_running = true;
  tickers_awaited = false;
  closed = false;
  measuring = measuring;
  panicked = false;
}

module _ {sch : Schedule} {n : ℕ} where
  same :
      {k a a' f f' m m' : ℕ}
      → a ≡ a'
      → f ≡ f'
      → m ≡ m'
      → Reach sch n (stage k a f m)
      → Reach sch n (stage k a' f' m')
  same e g h r = rw (sym e, sym g, sym h) r

  start_all : (k a : ℕ) → Reach sch n (stage k a 0 0) → Reach sch n (stage 0 (k + a) 0 0)
  start_all zero a r = same (omega arith) refl refl r
  start_all (suc k) a r =
      same (omega arith) refl refl
        (start_all k (a + 1) (next (next r refl (spawn refl)) refl (add refl)))

  tick_all :
      (m x a : ℕ) → Reach sch n (stage 0 (suc a) 0 x) → Reach sch n (stage 0 (suc a) 0 (m + x))
  tick_all zero x a r = same refl refl (omega arith) r
  tick_all (suc m) x a r =
      same refl refl (omega arith) (tick_all m (x + 1) a (next r refl (tick refl)))

  done_all : (a f m : ℕ) → Reach sch n (stage 0 a f m) → Reach sch n (stage 0 0 (a + f) m)
  done_all zero f m r = same refl (omega arith) refl r
  done_all (suc a) f m r =
      same refl (omega arith) refl (done_all a (f + 1) m (next r refl (done refl refl)))

-- With any number of tickers and of measurements but 0.
put_after_close :
    (n m : ℕ)
    → (s : Waiting) × Reach adds_first (suc n) s
      × (s.commands_running ≡ false)
      × (s.tickers.finished ≡ suc n)
      × (s.measuring ≡ suc m)
      × (s.panicked ≡ true)
put_after_close n m =
    let started : Reach adds_first (suc n) (stage 0 (suc n) 0 0) =
      same (omega arith) refl refl (start_all (suc n) 0 here) in
    let measuring : Reach adds_first (suc n) (stage 0 (suc n) 0 (suc m)) =
      same refl refl (omega arith) (tick_all (suc m) 0 n started) in
    let finished = done_all (suc n) 0 (suc m) measuring in
    let awaited = next (next finished refl (wait_returns refl refl refl)) refl commands_return in
    let closed = next awaited refl (close refl refl) in
    (_, next closed refl (put_closed {m = m} refl refl), refl, omega arith, refl, refl)

-- With any number of tickers but 0, the telemetry channel can be closed too early in two ways. The
-- tickers' goroutines count themselves, and nothing makes `Wait` come later: it can be closed while
-- every ticker's loop is in `Run`, none of them having returned. And no wait group counts the
-- measurements: even where every ticker has counted itself before `Wait` is called, it can happen
-- that the command loop and the loops of all tickers have returned, the channel is closed, and one
-- of any number of measurements but 0 panics as it puts on it.
pub closed_too_early :
    (n m : ℕ)
    → ((s : Waiting) × Reach any_order (suc n) s
        × (s.closed ≡ true)
        × (s.tickers.active ≡ suc n)
        × (s.tickers.finished ≡ 0))
      × ((s : Waiting) × Reach adds_first (suc n) s
          × (s.commands_running ≡ false)
          × (s.tickers.finished ≡ suc n)
          × (s.measuring ≡ suc m)
          × (s.panicked ≡ true))
closed_too_early n m = (closed_under_tickers (suc n), put_after_close n m)
