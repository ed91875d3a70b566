-- ===== src/Main/System/Hazards.antt =====
-- Events that are not orderly, and a connection that fails at first.
use telemd.Base.{
  ℕ, zero, suc, ◌+◌, ◌^◌, ◌<◌, ◌≤◌, ◌≡◌, refl, sym, ◌≢◌, ◌∙◌, Bool, true, false, none, some, List,
  [], ◌∷◌, ◌++◌, codes, ◌>>=◌, if◌then◌else◌, arith, All, replicate, length, text_dec,
}
use telemd.Base.Int.{ℤ, pos, add64}
use telemd.Redis.Limiter.{failed, recovered}
use telemd.Ticker.Refinement.{Phase}
use telemd.Daemon.{Daemon}
use telemd.Daemon.Pausing.{all_positive, Mode}
use telemd.Server.{Effect, send, update_node_info, ignore, effect_of}
use mathlib.Core.Path.{subst}
use telemd.Main.System.{
  Service, obeyed, wait_for_loop, set_up, System, stop_server, attempt, listen, deliver,
  attempt_and_deliver, attempts, deliver_busy, serve_info, serve_effect, Event, attempted, payload,
  no_message, answered, handle, handle_all, shut_down,
}
use telemd.Main.System.Views.{
  report-messages, View, IsView, system_of, IsOrderly, view_step, view_run, begun, effect_step,
  attempt_step,
}
use telemd.Main.System.Listening.{pause_tickers-in_mode}
use telemd.Main.System.Removal.{next_failure, first_failure}
use telemd.Main.System.Running.{handle_all-view_run}

-- The view of a program whose connection is up.
abbrev up_view : Mode → ℕ → Service → View
up_view mode infos rep = record {
  failures = pos 0;
  linked = true;
  mode = mode;
  infos = infos;
  reporter = rep;
}

up_view_lem : (v : View) → IsView v → v.linked ≡ true → v ≡ up_view v.mode v.infos v.reporter
up_view_lem v h up = λ i. record {
  failures = h.sound up i;
  linked = up i;
  mode = v.mode;
  infos = v.infos;
  reporter = v.reporter;
}

-- A system whose server has left its loop while the flag `running` stayed.
module _ (b : ℤ) (d : Daemon) (g : all_positive d.tickers ≡ true) where
  abbrev orphaned : View → System
  orphaned v = record (system_of b d v) {
    server = record { loops = 0; running = true; buffered = 0 };
  }

  failed_orphaned :
      (ok : Bool) (mode : Mode) (infos : ℕ) (rep : Service)
      → let v : View = record {
        failures = pos 0;
        linked = true;
        mode = mode;
        infos = infos;
        reporter = rep;
      } in
        mode.phase ≢ Phase.stopped → attempt_and_deliver false ok (orphaned v) ≡ none
  unfolding attempt_and_deliver deliver listen stop_server
  failed_orphaned ok mode infos rep h =
      rw (report-messages b false (pos 0) (omega arith), pause_tickers-in_mode mode d h g) refl

  closed_at :
      (mode : Mode) (infos : ℕ) (rep : Service) (success : Bool) (n : ℕ) (result : Bool)
      → mode.phase ≢ Phase.stopped
      → (handle_all
            (no_message ∷ attempted false success ∷ [])
            (system_of b d (up_view mode infos rep))
          ≡ none)
        × ((handle no_message (system_of b d (up_view mode infos rep)) >>= shut_down n result)
            ≡ none)
  unfolding handle_all handle shut_down stop_server
  closed_at mode infos rep success n result h =
      (rw (failed_orphaned success mode infos rep h) refl, refl)

  -- If every ticker has a positive period: if the subscription of the command server is closed while the connection is up, the flag
  -- `running` stays set without a loop that reads the stop channel: the listener blocks for good at
  -- the next failure of the connection, and so does the handler of signals before it has done
  -- anything.
  pub closed_subscription :
      (v : View) (success : Bool) (n : ℕ) (result : Bool)
      → IsView v
      → v.linked ≡ true
      → (handle_all (no_message ∷ attempted false success ∷ []) (system_of b d v) ≡ none)
        × ((handle no_message (system_of b d v) >>= shut_down n result) ≡ none)
  unfolding handle_all handle shut_down stop_server
  closed_subscription v success n result h up =
      rw (up_view_lem v h up) (closed_at v.mode v.infos v.reporter success n result h.live)

  failing_attempts :
      (v : View) (k m : ℕ)
      → m + k + 1 < 2 ^ 63
      → attempts
          (replicate k false ++ (true ∷ []))
          (system_of b d (record v { failures = pos (suc m) }))
        ≡ some (system_of b d (record v { failures = pos 0 }), recovered ∷ [])
  unfolding attempts attempt
  failing_attempts v zero m h = rw (report-messages b true (pos (suc m)) (omega arith)) refl
  failing_attempts v (suc k) m h =
      rw
        (
          report-messages b false (pos (suc m)) (omega arith),
          next_failure m (omega arith),
          failing_attempts v k (suc m) (omega arith),
        )
        refl

  -- The message of the failure makes the listener wait for the loop, which has another message.
  busy_at :
      (mode : Mode) (infos : ℕ) (rep : Service)
      → mode.phase ≢ Phase.stopped
      → deliver_busy (failed ∷ recovered ∷ []) (system_of b d (up_view mode infos rep)) ≡ none
  unfolding deliver_busy wait_for_loop listen stop_server
  busy_at mode infos rep live = rw (deliver_busy, pause_tickers-in_mode mode d live g) refl

  info_at :
      (mode : Mode) (infos n : ℕ) (rep : Service)
      → mode.phase ≢ Phase.stopped
      → n + 2 < 2 ^ 63
      → handle
          (payload (codes "info") (replicate (suc n) false ++ (true ∷ [])))
          (system_of b d (up_view mode infos rep))
        ≡ none
  unfolding handle serve_effect effect_of serve_info text_dec attempts attempt
  info_at mode infos n rep live bound =
      rw
        (
          report-messages b false (pos 0) (omega arith),
          first_failure,
          failing_attempts (up_view mode infos rep) n 0 (omega arith),
          busy_at mode infos rep live,
        )
        refl

  -- If every ticker has a positive period: if the command `info` arrives while the connection is up, and the transaction that answers it
  -- fails at first and succeeds later, the program is stuck: the listener waits for the server's
  -- loop to stop, and that loop waits for the listener to take the message of the recovery.
  pub info_over_failure :
      (v : View) (n : ℕ)
      → IsView v
      → v.linked ≡ true
      → n + 2 < 2 ^ 63
      → handle (payload (codes "info") (replicate (suc n) false ++ (true ∷ []))) (system_of b d v)
        ≡ none
  info_over_failure v n h up bound =
      rw (up_view_lem v h up) (info_at v.mode v.infos n v.reporter h.live bound)

-- No message asks for the node's information.
abbrev WritesNothing : Effect → Type 0
WritesNothing update_node_info = ⊥
WritesNothing _ = Unit

abbrev pub AsksNothing : Event → Type 0
AsksNothing (payload text rs) = WritesNothing (effect_of text)
AsksNothing _ = Unit

effect_step_keeps :
    (e : Effect) (v : View)
    → WritesNothing e
    → ((effect_step e v).failures ≡ v.failures) × ((effect_step e v).infos ≡ v.infos)
effect_step_keeps (send c) v h = (refl, refl)
effect_step_keeps update_node_info v h = absurd h
effect_step_keeps ignore v h = (refl, refl)

if_keeps :
    (c : Bool) (w v : View)
    → (w.failures ≡ v.failures) × (w.infos ≡ v.infos)
    → ((if c then w else v).failures ≡ v.failures) × ((if c then w else v).infos ≡ v.infos)
if_keeps true w v h = h
if_keeps false w v h = (refl, refl)

-- One attempt counts at most one failure more, and writes nothing.
attempt_step_keeps :
    (r : Bool) (n : ℕ) (v : View)
    → n + 1 < 2 ^ 63
    → (k : ℕ) × (k ≤ n + 1)
      × ((attempt_step r (pos n) v).failures ≡ pos k)
      × ((attempt_step r (pos n) v).infos ≡ v.infos)
attempt_step_keeps true zero v h = (0, omega arith, refl, refl)
attempt_step_keeps true (suc n) v h = (0, omega arith, refl, refl)
attempt_step_keeps false zero v h = (1, omega arith, refl, refl)
attempt_step_keeps false (suc n) v h =
    (suc (suc n), omega arith, next_failure n (omega arith), refl)

view_step_keeps :
    (e : Event) (v : View) (n : ℕ)
    → v.failures ≡ pos n
    → n + 1 < 2 ^ 63
    → AsksNothing e
    → (k : ℕ) × (k ≤ n + 1) × ((view_step e v).failures ≡ pos k) × ((view_step e v).infos ≡ v.infos)
view_step_keeps (attempted r ok) v n f h q =
    subst
      (λ x.
        (k : ℕ) × (k ≤ n + 1)
        × ((attempt_step r x v).failures ≡ pos k)
        × ((attempt_step r x v).infos ≡ v.infos))
      (sym f) (attempt_step_keeps r n v h)
view_step_keeps (payload text rs) v n f h q =
    let (e, i) =
      if_keeps v.linked (effect_step (effect_of text) v) v
        (effect_step_keeps (effect_of text) v q) in
    (n, omega arith, e ∙ f, i)
view_step_keeps no_message v n f h q = (n, omega arith, f, refl)
view_step_keeps (answered a) v n f h q = (n, omega arith, f, refl)
view_step_keeps obeyed v n f h q = (n, omega arith, f, refl)

view_run_keeps :
    (es : List Event) (v : View) (n : ℕ)
    → v.failures ≡ pos n
    → n + length es < 2 ^ 63
    → All AsksNothing es
    → (view_run es v).infos ≡ v.infos
view_run_keeps [] v n f h q = refl
view_run_keeps (e ∷ es) v n f h (q, qs) =
    let (k, le, f', i) = view_step_keeps e v n f (omega arith) q in
    view_run_keeps es (view_step e v) k f' (omega arith) qs ∙ i

-- For a daemon that no command had paused at the start, and whose tickers all have positive
-- periods: if the first attempt to reach redis fails, the node's information is never written,
-- whether or not later attempts succeed, until a message asks for it: for every orderly sequence
-- of fewer than 2^63 events without such a message.
pub unwritten_after_failure :
    (b : ℤ) (d : Daemon) (es : List Event)
    → d.is_paused_by_command ≡ false
    → all_positive d.tickers ≡ true
    → All IsOrderly es
    → All AsksNothing es
    → length es < 2 ^ 63
    → (s : System) × ((set_up b d >>= handle_all (attempted false true ∷ es)) ≡ some s)
      × (s.infos ≡ 0)
unwritten_after_failure b d es h g o q l = (
  system_of b d (view_run (attempted false true ∷ es) begun),
  handle_all-view_run b d (attempted false true ∷ es) h (refl, o) ∙ rw g refl,
  view_run_keeps es (view_step (attempted false true) begun) 0 (unfold add64 in refl) (omega arith)
      q,
)
