-- ===== src/Main/System/Views/Steps.antt =====
-- What holds of every state that an operator sees is kept by every event.
use telemd.Base.{zero, suc, ◌≡◌, refl, Bool, true, false, List, [], ◌∷◌, if◌then◌else◌, arith}
use telemd.Base.Int.{ℤ, pos, negsuc, add64-IsInt64}
use telemd.Daemon.Pausing.{mode_step_live, got, connection_failed, connection_recovered}
use telemd.Server.{Effect, send, update_node_info, ignore, effect_of}
use telemd.Main.System.{obeyed, Event, attempted, payload, no_message, answered}
use telemd.Main.System.Views.{View, IsView, attempt_step, effect_step, view_step, view_run, begun}

attempt_step-IsView :
    (r : Bool) (f : ℤ) (v : View) → f ≡ v.failures → IsView v → IsView (attempt_step r f v)
attempt_step-IsView true (negsuc zero) v e h = record {
  bounded = omega arith;
  sound = λ _. refl;
  live = h.live;
}
attempt_step-IsView true (negsuc (suc n)) v e h = record {
  bounded = omega arith;
  sound = λ _. refl;
  live = h.live;
}
attempt_step-IsView true (pos zero) v e h = record {
  bounded = omega arith;
  sound = λ _. refl;
  live = h.live;
}
attempt_step-IsView true (pos (suc n)) v e h = record {
  bounded = omega arith;
  sound = λ _. refl;
  live = mode_step_live connection_recovered v.mode h.live;
}
attempt_step-IsView false (negsuc n) v e h = record {
  bounded = add64-IsInt64 (negsuc n) (pos 1);
  sound = λ l. absurd (cc (h.sound l));
  live = h.live;
}
attempt_step-IsView false (pos zero) v e h = record {
  bounded = omega arith;
  sound = λ l. cc;
  live = mode_step_live connection_failed v.mode h.live;
}
attempt_step-IsView false (pos (suc n)) v e h = record {
  bounded = add64-IsInt64 (pos (suc n)) (pos 1);
  sound = λ l. absurd (cc (h.sound l));
  live = h.live;
}

effect_step-IsView : (e : Effect) (v : View) → IsView v → IsView (effect_step e v)
effect_step-IsView (send c) v h = record {
  bounded = h.bounded;
  sound = h.sound;
  live = mode_step_live (got c) v.mode h.live;
}
effect_step-IsView update_node_info v h = record {
  bounded = h.bounded;
  sound = h.sound;
  live = h.live;
}
effect_step-IsView ignore v h = h

if-IsView : (c : Bool) (v w : View) → IsView v → IsView w → IsView (if c then v else w)
if-IsView true v w h k = h
if-IsView false v w h k = k

pub view_step-IsView : (e : Event) (v : View) → IsView v → IsView (view_step e v)
view_step-IsView (attempted r success) v h = attempt_step-IsView r v.failures v refl h
view_step-IsView (payload text rs) v h =
    if-IsView v.linked (effect_step (effect_of text) v) v (effect_step-IsView (effect_of text) v h)
      h
view_step-IsView no_message v h = h
view_step-IsView (answered a) v h = h
view_step-IsView obeyed v h = record { bounded = h.bounded; sound = h.sound; live = h.live }

pub view_run-IsView : (es : List Event) (v : View) → IsView v → IsView (view_run es v)
view_run-IsView [] v h = h
view_run-IsView (e ∷ es) v h = view_run-IsView es (view_step e v) (view_step-IsView e v h)

pub begun-IsView : IsView begun
begun-IsView = record { bounded = omega arith; sound = λ l. absurd (cc l); live = λ e. cc }
