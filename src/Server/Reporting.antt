-- ===== src/Server/Reporting.antt =====
-- internal/telemd/redis.go: the reporter's `Run` and `Stop`, with the goroutines in which the
-- listener of cmd/telemd/main.go calls them, until the client is closed and while no error makes the
-- loop panic. They go on in any order; `Stop` reads the flag and sends in one step.
pub mod Single
pub mod Crowding
use telemd.Base.{ℕ, suc, ◌+◌, ◌≤◌, ◌≡◌, Bool, true, false, List, [], ◌∷◌, ◌++◌, length}

-- What the goroutines share, and where they stand: calls of `Run` and `Stop` that have not begun,
-- loops that wait in their `select`, and loops that publish, each with its telemetry.
pub record Reporting (A : Type 0) : Type 0 where
  -- What the listener was told last of the connection.
  pub up : Bool
  pub starting : ℕ
  pub stopping : ℕ
  pub waiting : ℕ
  pub in_flight : List A
  pub running : Bool
  -- The values in the stop channel.
  pub buffered : ℕ
  -- The telemetry received from the channel and that published, in order.
  pub taken : List A
  pub published : List A

-- How fast the goroutines are: no bound, or each call has begun before the listener takes its next
-- message but one that undoes it, and each `Stop` is obeyed before the next `Run` begins.
pub data Pace : Type 0 where
  any_pace prompt : Pace

abbrev pub IfPrompt : Pace → Type 0 → Type 0
IfPrompt any_pace P = Unit
IfPrompt prompt P = P

module _ {A : Type 0} where
  abbrev pub idle : Reporting A
  idle = record {
    up = false;
    starting = 0;
    stopping = 0;
    waiting = 0;
    in_flight = [];
    running = false;
    buffered = 0;
    taken = [];
    published = [];
  }

  pub data Step (pace : Pace) (s : Reporting A) : Reporting A → Type 0 where
    -- `Connected` or `Recovered`: `go telemetryReporter.Run()`.
    connect :
        s.up ≡ false
        → IfPrompt pace (s.stopping ≡ 0)
        → Step pace s (record s { up = true; starting = s.starting + 1 })
    -- `Failed`: `go telemetryReporter.Stop()`.
    fail :
        s.up ≡ true
        → IfPrompt pace (s.starting ≡ 0)
        → Step pace s (record s { up = false; stopping = s.stopping + 1 })
    run :
        {n : ℕ}
        → s.starting ≡ suc n
        → IfPrompt pace (s.buffered ≡ 0)
        → Step pace s (record s { starting = n; waiting = s.waiting + 1; running = true })
    stop_running :
        {n : ℕ}
        → s.stopping ≡ suc n
        → s.running ≡ true
        → s.buffered + 1 ≤ 10
        → Step pace s (record s { stopping = n; buffered = s.buffered + 1 })
    stop_not_running :
        {n : ℕ} → s.stopping ≡ suc n → s.running ≡ false → Step pace s (record s { stopping = n })
    -- The two cases of the `select`.
    receive :
        {n : ℕ}
        → (t : A) → s.waiting ≡ suc n
        → Step pace s (record s {
          waiting = n;
          in_flight = s.in_flight ++ (t ∷ []);
          taken = s.taken ++ (t ∷ []);
        })
    stopped :
        {n b : ℕ}
        → s.waiting ≡ suc n
        → s.buffered ≡ suc b
        → Step pace s (record s { waiting = n; buffered = b; running = false })
    -- `report` returns: the client tries again until an attempt succeeds, and `ReportResult` has told
    -- the listener before that.
    publish :
        (xs : List A) (t : A) (ys : List A)
        → s.up ≡ true
        → s.in_flight ≡ xs ++ (t ∷ ys)
        → Step pace s (record s {
          in_flight = xs ++ ys;
          waiting = s.waiting + 1;
          published = s.published ++ (t ∷ []);
        })

  pub data Reach (pace : Pace) : Reporting A → Type 0 where
    here : Reach pace idle
    next : {s t : Reporting A} → Reach pace s → Step pace s t → Reach pace t

  -- The loops, in `select` or in `report`.
  abbrev pub loops : Reporting A → ℕ
  loops s = s.waiting + length s.in_flight
