-- ===== src/Daemon/Waiting.antt =====
-- internal/telemd/daemon.go: the wait groups of `Run` and `startTickers`, whose goroutines go on in
-- any order.
pub mod Late
use mathlib.Core.Path.{subst}
use telemd.Base.{ℕ, zero, suc, ◌+◌, ◌≡◌, refl, Bool, true, false, arith}

-- The goroutines of the tickers are counted by where they stand: not begun by the loop of
-- `startTickers`, before `wg.Add(1)`, in `t.Run()`, and behind `wg.Done()`.
pub record Goroutines : Type 0 where
  pub unspawned : ℕ
  pub pending : ℕ
  pub active : ℕ
  pub finished : ℕ

-- With the counter of the inner wait group, the two goroutines of `Run`, whether the telemetry
-- channel has been closed, the measurements that have not returned, which no wait group counts, and
-- whether one of them has put on the closed channel, which is a panic.
pub record Waiting : Type 0 where
  pub tickers : Goroutines
  pub counter : ℕ
  pub commands_running : Bool
  pub tickers_awaited : Bool
  pub closed : Bool
  pub measuring : ℕ
  pub panicked : Bool

abbrev pub begin : ℕ → Waiting
begin n = record {
  tickers = record { unspawned = n; pending = 0; active = 0; finished = 0 };
  counter = 0;
  commands_running = true;
  tickers_awaited = false;
  closed = false;
  measuring = 0;
  panicked = false;
}

-- How `Wait` of the inner group is scheduled: at any time at which its counter is 0, or only behind
-- every `Add`, as the package asks for.
pub data Schedule : Type 0 where
  any_order adds_first : Schedule

abbrev pub MayReturn : Schedule → ℕ → Type 0
MayReturn any_order pending = Unit
MayReturn adds_first pending = pending ≡ 0

-- One step of one goroutine. A ticker's `Run` may return at any time, which covers every caller
-- of its `Stop`. The second for which `Run` sleeps before it closes the channel bounds nothing.
pub data Step (sch : Schedule) (s : Waiting) : Waiting → Type 0 where
  spawn :
      {k p a f : ℕ}
      → s.tickers ≡ record { unspawned = suc k; pending = p; active = a; finished = f }
      → Step sch s (record s {
        tickers = record { unspawned = k; pending = p + 1; active = a; finished = f };
      })
  add :
      {k p a f : ℕ}
      → s.tickers ≡ record { unspawned = k; pending = suc p; active = a; finished = f }
      → Step sch s (record s {
        tickers = record { unspawned = k; pending = p; active = a + 1; finished = f };
        counter = s.counter + 1;
      })
  done :
      {k p a f c : ℕ}
      → s.tickers ≡ record { unspawned = k; pending = p; active = suc a; finished = f }
      → s.counter ≡ suc c
      → Step sch s (record s {
        tickers = record { unspawned = k; pending = p; active = a; finished = f + 1 };
        counter = c;
      })
  wait_returns :
      s.tickers.unspawned ≡ 0
      → s.counter ≡ 0
      → MayReturn sch s.tickers.pending
      → Step sch s (record s { tickers_awaited = true })
  commands_return : Step sch s (record s { commands_running = false })
  close :
      s.commands_running ≡ false
      → s.tickers_awaited ≡ true
      → Step sch s (record s { closed = true })
  -- `go ticker.instrument.MeasureAndReport(ticker.telemetryC)`.
  tick :
      {k p a f : ℕ}
      → s.tickers ≡ record { unspawned = k; pending = p; active = suc a; finished = f }
      → Step sch s (record s { measuring = s.measuring + 1 })
  measured : {m : ℕ} → s.measuring ≡ suc m → Step sch s (record s { measuring = m })
  -- A `Put` of a measurement, as long as the channel is open and behind its `Close`.
  put : {m : ℕ} → s.measuring ≡ suc m → s.closed ≡ false → Step sch s s
  put_closed :
      {m : ℕ} → s.measuring ≡ suc m → s.closed ≡ true → Step sch s (record s { panicked = true })

pub data Reach (sch : Schedule) (n : ℕ) : Waiting → Type 0 where
  here : Reach sch n (begin n)
  next : {s t : Waiting} → Reach sch n s → s.panicked ≡ false → Step sch s t → Reach sch n t

-- What holds in every schedule.
pub record IsCounted (n : ℕ) (s : Waiting) : Type 0 where
  pub counted : s.counter ≡ s.tickers.active
  pub all_there :
      s.tickers.unspawned + s.tickers.pending + s.tickers.active + s.tickers.finished ≡ n
  pub spawned : s.tickers_awaited ≡ true → s.tickers.unspawned ≡ 0
  pub commanded : s.closed ≡ true → s.commands_running ≡ false
  pub awaited : s.closed ≡ true → s.tickers_awaited ≡ true
  pub panics : s.panicked ≡ true → s.closed ≡ true

-- And where every `Add` comes first.
abbrev pub IsOver : Waiting → Type 0
IsOver s = s.tickers_awaited ≡ true → (s.tickers.pending ≡ 0) × (s.tickers.active ≡ 0)

Step-IsCounted :
    {sch : Schedule} {n : ℕ} {s t : Waiting} → Step sch s t → IsCounted n s → IsCounted n t
Step-IsCounted (spawn e) h = ground arith
Step-IsCounted (add e) h = ground arith
Step-IsCounted (done e c) h = ground arith
Step-IsCounted (wait_returns u c m) h = ground arith
Step-IsCounted commands_return h = ground arith
Step-IsCounted (close c a) h = ground arith
Step-IsCounted (tick e) h = ground arith
Step-IsCounted (measured e) h = ground arith
Step-IsCounted (put e o) h = h
Step-IsCounted (put_closed e c) h = ground arith

Reach-IsCounted : {sch : Schedule} {n : ℕ} {s : Waiting} → Reach sch n s → IsCounted n s
Reach-IsCounted here = ground arith
Reach-IsCounted (next r _ st) = Step-IsCounted st (Reach-IsCounted r)

Step-IsOver : {n : ℕ} {s t : Waiting} → Step adds_first s t → IsCounted n s → IsOver s → IsOver t
Step-IsOver (spawn e) c h = ground arith
Step-IsOver (add e) c h = ground arith
Step-IsOver (done e d) c h = ground arith
Step-IsOver (wait_returns u z m) c h = ground arith
Step-IsOver commands_return c h = h
Step-IsOver (close r a) c h = h
Step-IsOver (tick e) c h = h
Step-IsOver (measured e) c h = h
Step-IsOver (put e o) c h = h
Step-IsOver (put_closed e o) c h = h

Reach-IsOver : {n : ℕ} {s : Waiting} → Reach adds_first n s → IsOver s
Reach-IsOver here = λ e. cc
Reach-IsOver (next r _ st) = Step-IsOver st (Reach-IsCounted r) (Reach-IsOver r)

-- Where every ticker's goroutine has counted itself before `Wait` is called, the telemetry channel
-- is closed only once the command loop has returned and all of the tickers' loops have.
pub closed-finished :
    {n : ℕ} {s : Waiting}
    → Reach adds_first n s
    → s.closed ≡ true
    → (s.commands_running ≡ false) × (s.tickers.finished ≡ n)
closed-finished r c = ground (arith, Reach-IsCounted r, Reach-IsOver r)

-- The tickers' goroutines that have not counted themselves do so behind the end of `Run`.
abbrev late : ℕ → ℕ → Waiting
late pending active = record {
  tickers = record { unspawned = 0; pending = pending; active = active; finished = 0 };
  counter = active;
  commands_running = false;
  tickers_awaited = true;
  closed = true;
  measuring = 0;
  panicked = false;
}

abbrev early : ℕ → ℕ → Waiting
early unspawned pending = record {
  tickers = record { unspawned = unspawned; pending = pending; active = 0; finished = 0 };
  counter = 0;
  commands_running = true;
  tickers_awaited = false;
  closed = false;
  measuring = 0;
  panicked = false;
}

spawn_all : {n : ℕ} (k p : ℕ) → Reach any_order n (early k p) → Reach any_order n (early 0 (k + p))
spawn_all {n} zero p r = subst (λ x. Reach any_order n (early 0 x)) (omega arith) r
spawn_all {n} (suc k) p r =
    subst (λ x. Reach any_order n (early 0 x)) (omega arith)
      (spawn_all k (p + 1) (next r refl (spawn refl)))

add_all : {n : ℕ} (p a : ℕ) → Reach any_order n (late p a) → Reach any_order n (late 0 (p + a))
add_all {n} zero a r = subst (λ x. Reach any_order n (late 0 x)) (omega arith) r
add_all {n} (suc p) a r =
    subst (λ x. Reach any_order n (late 0 x)) (omega arith)
      (add_all p (a + 1) (next r refl (add refl)))

run_over : (n p : ℕ) → Reach any_order n (early 0 p) → Reach any_order n (late p 0)
run_over n p r =
    let awaited = next (next r refl (wait_returns refl refl tt)) refl commands_return in
    next awaited refl (close refl refl)

-- For any number of tickers the channel can be closed while each of them is in `Run`.
pub closed_under_tickers :
    (n : ℕ)
    → (s : Waiting) × Reach any_order n s
      × (s.closed ≡ true)
      × (s.tickers.active ≡ n)
      × (s.tickers.finished ≡ 0)
closed_under_tickers n = (
  late 0 (n + 0 + 0),
  add_all (n + 0) 0 (run_over n (n + 0) (spawn_all n 0 here)),
  refl,
  omega arith,
  refl,
)
