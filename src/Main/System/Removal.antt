-- ===== src/Main/System/Removal.antt =====
-- The deletion of the node's information, on a system that its operator sees.
use telemd.Base.{
  ◌-◌, ◌+◌, ◌^◌, ◌<◌, leb, ℕ, zero, suc, ◌≡◌, refl, ◌≢◌, ◌∙◌, Bool, true, false, some,
  if◌then◌else◌, arith,
}
use telemd.Base.Int.{add64, ℤ, pos, negsuc}
use telemd.Redis.Limiter.{is_retrying}
use telemd.Ticker.Refinement.{Phase}
use telemd.Daemon.{Daemon}
use telemd.Daemon.Pausing.{
  all_positive, connection_recovered, Mode, mode_step, mode_step_live, connection_failed,
}
use telemd.Main.System.{
  Service, start_reporter, stop_reporter, remove_after, System, remove_node_info,
}
use telemd.Main.System.Views.{open_client, View, IsView, system_of}
use telemd.Main.System.Listening.{attempted_lem}

-- The view of a program whose server has been stopped by the handler of signals.
abbrev pub unserved : View → View
unserved v = record v { linked = false }

-- The view when the node's information has been dealt with, by the failures of the connection, the
-- attempts that fail now, and how the last one ends.
abbrev pub after_removal : ℕ → ℕ → Bool → View → View
after_removal (suc k) n result v = unserved v
after_removal zero zero true v = unserved v
after_removal zero n false v = record v {
  failures = pos (suc n);
  linked = false;
  mode = mode_step connection_failed v.mode;
  reporter = stop_reporter v.reporter;
}
after_removal zero (suc n) true v = record v {
  failures = pos 0;
  linked = true;
  mode = mode_step connection_recovered (mode_step connection_failed v.mode);
  reporter = start_reporter (stop_reporter v.reporter);
}

-- How often the information is deleted.
abbrev pub removals : ℕ → Bool → ℕ
removals (suc k) result = 0
removals zero true = 1
removals zero false = 0

pub next_failure : (m : ℕ) → m + 2 < 2 ^ 63 → add64 (pos (suc m)) (pos 1) ≡ pos (suc (suc m))
unfolding add64
next_failure m h = ground arith

pub first_failure : add64 (pos 0) (pos 1) ≡ pos 1
unfolding add64
first_failure = refl

abbrev pub retries : ℤ → Bool
retries (pos (suc n)) = true
retries _ = false

pub is_retrying-retries : (b f : ℤ) → is_retrying (open_client b f).limiter ≡ retries f
unfolding is_retrying
is_retrying-retries b (pos zero) = refl
is_retrying-retries b (pos (suc n)) = ground arith
is_retrying-retries b (negsuc n) = ground arith

-- A system in a view, its information deleted so often.
abbrev pub deleted : ℤ → Daemon → View → ℕ → System
deleted b d v removed = record (system_of b d v) { removed = removed }

pub unserved_lem :
    (k n : ℕ) (result : Bool) (v : View)
    → after_removal k n result (unserved v) ≡ after_removal k n result v
unserved_lem (suc k) n result v = refl
unserved_lem zero zero true v = refl
unserved_lem zero zero false v = refl
unserved_lem zero (suc n) false v = refl
unserved_lem zero (suc n) true v = refl

pub after_removal_live :
    (k n : ℕ) (result : Bool) (v : View)
    → v.mode.phase ≢ Phase.stopped
    → (after_removal k n result v).mode.phase ≢ Phase.stopped
after_removal_live (suc k) n result v live = live
after_removal_live zero zero true v live = live
after_removal_live zero zero false v live = mode_step_live connection_failed v.mode live
after_removal_live zero (suc n) false v live = mode_step_live connection_failed v.mode live
after_removal_live zero (suc n) true v live =
    mode_step_live connection_recovered (mode_step connection_failed v.mode)
      (mode_step_live connection_failed v.mode live)

module _ (b : ℤ) (d : Daemon) (g : all_positive d.tickers ≡ true) where
  -- The view behind a first failure.
  abbrev down : ℕ → Mode → ℕ → Service → View
  down m mode infos rep = record {
    failures = pos (suc m);
    linked = false;
    mode = mode;
    infos = infos;
    reporter = rep;
  }

  down-IsView :
      (m : ℕ) (mode : Mode) (infos : ℕ) (rep : Service)
      → m + 1 < 2 ^ 63
      → mode.phase ≢ Phase.stopped
      → IsView (down m mode infos rep)
  down-IsView m mode infos rep bound live = record {
    bounded = omega arith;
    sound = λ l. absurd (cc l);
    live = live;
  }

  idle-IsView :
      (mode : Mode) (infos : ℕ) (rep : Service)
      → mode.phase ≢ Phase.stopped
      → IsView
          (record { failures = pos 0; linked = false; mode = mode; infos = infos; reporter = rep })
  idle-IsView mode infos rep live = record {
    bounded = omega arith;
    sound = λ l. absurd (cc l);
    live = live;
  }

  -- While the connection is down, further failures are counted only.
  further :
      (n m : ℕ) (result : Bool) (mode : Mode) (infos : ℕ) (rep : Service)
      → n + m + 2 < 2 ^ 63
      → mode.phase ≢ Phase.stopped
      → remove_after n result (system_of b d (down m mode infos rep))
        ≡ some (
            deleted b d
              (if result
                then record {
                  failures = pos 0;
                  linked = true;
                  mode = mode_step connection_recovered mode;
                  infos = infos;
                  reporter = start_reporter rep;
                }
                else down (suc (n + m)) mode infos rep)
              (if result then 1 else 0))
  unfolding remove_after
  further zero m true mode infos rep bound live =
      rw
        (attempted_lem b d g true (pos (suc m)) false mode infos rep
          (down-IsView m mode infos rep (omega arith) live))
        refl
  further zero m false mode infos rep bound live =
      let none_more : 0 + m ≡ m = omega arith in
      rw
        (
          attempted_lem b d g false (pos (suc m)) false mode infos rep
              (down-IsView m mode infos rep (omega arith) live),
          next_failure m (omega arith),
          none_more,
        )
        refl
  further (suc n) m result mode infos rep bound live =
      let one_more : suc n + m ≡ n + suc m = omega arith in
      rw
        (
          attempted_lem b d g false (pos (suc m)) false mode infos rep
              (down-IsView m mode infos rep (omega arith) live),
          next_failure m (omega arith),
          one_more,
        )
        (further n (suc m) result mode infos rep (omega arith) live)

  -- The attempts of a deletion, the connection having failed not at all or so often before.
  removing :
      (n : ℕ) (result : Bool) (mode : Mode) (infos : ℕ) (rep : Service)
      → n < 2 ^ 31
      → mode.phase ≢ Phase.stopped
      → let v : View = record {
        failures = pos 0;
        linked = false;
        mode = mode;
        infos = infos;
        reporter = rep;
      } in
        remove_after n result (system_of b d v)
        ≡ some (deleted b d (after_removal 0 n result v) (removals 0 result))
  unfolding remove_after
  removing zero true mode infos rep bound live =
      rw (attempted_lem b d g true (pos 0) false mode infos rep (idle-IsView mode infos rep live))
        refl
  removing zero false mode infos rep bound live =
      rw (attempted_lem b d g false (pos 0) false mode infos rep (idle-IsView mode infos rep live))
        refl
  removing (suc n) true mode infos rep bound live =
      rw (attempted_lem b d g false (pos 0) false mode infos rep (idle-IsView mode infos rep live))
        (further n 0 true (mode_step connection_failed mode) infos (stop_reporter rep) (omega arith)
          (mode_step_live connection_failed mode live))
  removing (suc n) false mode infos rep bound live =
      let none_before : n + 0 ≡ n = omega arith in
      rw (attempted_lem b d g false (pos 0) false mode infos rep (idle-IsView mode infos rep live))
        (further n 0 false (mode_step connection_failed mode) infos (stop_reporter rep)
            (omega arith) (mode_step_live connection_failed mode live)
          ∙ rw none_before refl)

  pub remove_lem :
      (k n : ℕ) (result : Bool) (mode : Mode) (infos : ℕ) (rep : Service)
      → n < 2 ^ 31
      → mode.phase ≢ Phase.stopped
      → let v : View = record {
        failures = pos k;
        linked = false;
        mode = mode;
        infos = infos;
        reporter = rep;
      } in
        remove_node_info n result (system_of b d v)
        ≡ some (deleted b d (after_removal k n result v) (removals k result))
  unfolding remove_node_info
  remove_lem (suc k) n result mode infos rep bound live =
      rw (is_retrying-retries b (pos (suc k))) refl
  remove_lem zero n result mode infos rep bound live =
      let enough : leb n (2 ^ 31 - 1) ≡ true = ground arith in
      rw (is_retrying-retries b (pos 0), enough) (removing n result mode infos rep bound live)
