-- ===== src/PidRumble.antt =====
-- `GenericPidRumbleState` of src/platform/windows/shared/generic_pid_rumble.hpp: the scheduler that
-- turns DirectInput PID output reports and the passing of time into one rumble strength.
-- Time points are nanoseconds of the steady clock, and `now` is an argument of every call.
pub mod Force
pub mod Reports
pub mod Schedule
pub mod Quiet
pub mod Pause
pub mod Safety
mod Tests
use plank_libvirtualhid.Common.{
  ℕ, suc, ◌+◌, ◌-◌, ◌*◌, ◌%◌, ◌^◌, ◌<◌, Bool, true, false, not, ◌&&◌, ◌||◌, Option, none, some,
  List, [], ◌∷◌, length, get_or, set, map, replicate, max, min, ltb, leb, ◌==◌, ◌!=◌, if◌then◌else◌,
  is_empty, tail, drop,
}
use Force.{read_u16, scale_force}

abbrev pub max_effects : ℕ
max_effects = 40

-- `std::chrono::milliseconds` in nanoseconds.
abbrev pub ms : ℕ → ℕ
ms n = n * 1_000_000

pub record Effect : Type 0 where
  pub effect_type : ℕ
  pub gain : ℕ
  pub magnitude : ℕ
  pub duration : ℕ
  pub start_delay : ℕ
  pub operation_start : ℕ
  pub start : ℕ
  pub end : Option ℕ
  pub duration_is_infinite : Bool
  pub loop_count : ℕ
  pub loop_count_is_infinite : Bool
  pub running : Bool
  pub started : Bool

-- `Effect {}`
abbrev pub new_effect : Effect
new_effect = record {
  effect_type = 0;
  gain = 255;
  magnitude = 0;
  duration = 0;
  start_delay = 0;
  operation_start = 0;
  start = 0;
  end = none;
  duration_is_infinite = true;
  loop_count = 1;
  loop_count_is_infinite = false;
  running = false;
  started = false;
}

pub record RumbleState : Type 0 where
  pub effects : List Effect
  pub device_gain : ℕ
  pub last_strength : ℕ
  pub actuators_enabled : Bool
  pub paused : Bool
  pub pause_started : Option ℕ

abbrev pub new_state : RumbleState
new_state = record {
  effects = replicate max_effects new_effect;
  device_gain = 255;
  last_strength = 0;
  actuators_enabled = true;
  paused = false;
  pause_started = none;
}

-- `GenericPidRumbleUpdate`
pub record Update : Type 0 where
  pub recognized : Bool
  pub rumble_changed : Bool
  pub strength : ℕ

abbrev pub ignored : Update
ignored = record { recognized = false; rumble_changed = false; strength = 0 }

abbrev pub unchanged : Update
unchanged = record { recognized = true; rumble_changed = false; strength = 0 }

abbrev pub changed_to : ℕ → Update
changed_to strength = record { recognized = true; rumble_changed = true; strength = strength }

-- `effect(...)`: the position of the selected effect, `none` for a null pointer.
abbrev pub effect_index : ℕ → Option ℕ
effect_index block = if block == 0 || ltb max_effects block then none else some (block - 1)

abbrev pub effect_at : RumbleState → ℕ → Effect
effect_at s i = get_or s.effects i new_effect

abbrev pub with_effect : RumbleState → ℕ → Effect → RumbleState
with_effect s i e = record s { effects = set s.effects i e }

-- `running = false; started = false; end.reset();`
abbrev pub halt : Effect → Effect
halt e = record e { running = false; started = false; end = none }

unfoldable pub stop_all_effects : RumbleState → RumbleState
stop_all_effects s = record s { effects = map halt s.effects }

unfoldable pub update_effect_end : Effect → Effect
update_effect_end e =
    if e.duration_is_infinite || e.loop_count_is_infinite
    then record e { end = none }
    else record e { end = some (e.start + ms (e.duration * e.loop_count)) }

unfoldable pub start_effect : Effect → ℕ → ℕ → Effect
unfolding update_effect_end
start_effect e loop_count now = update_effect_end (record e {
  running = true;
  operation_start = now;
  started = e.start_delay == 0;
  start = now + ms e.start_delay;
  loop_count = max loop_count 1;
  loop_count_is_infinite = loop_count == 255;
})

-- The two tests of `expire_effect` on a running effect, in their order.
mark_started : ℕ → Effect → Effect
mark_started now e = if not e.started && leb e.start now then record e { started = true } else e

end_reached : ℕ → Option ℕ → Bool
end_reached now none = false
end_reached now (some t) = leb t now

end_if_reached : ℕ → Effect → Effect
unfolding end_reached
end_if_reached now e = if end_reached now e.end then halt e else e

unfoldable pub expire_effect : ℕ → Effect → Effect
unfolding mark_started end_if_reached
expire_effect now e = if e.running then end_if_reached now (mark_started now e) else e

unfoldable pub expire_effects : ℕ → RumbleState → RumbleState
expire_effects now s =
    if s.paused then s else record s { effects = map (expire_effect now) s.effects }

delayed_start : ℕ → Effect → Effect
delayed_start now e = record e {
  start = e.operation_start + ms e.start_delay;
  started = leb (e.operation_start + ms e.start_delay) now;
}

unfoldable pub reschedule_running_effect : ℕ → Effect → Effect
unfolding update_effect_end expire_effect delayed_start
reschedule_running_effect now e =
    if e.running
    then expire_effect now (update_effect_end (if e.started then e else delayed_start now e))
    else e

-- A shift of a running effect by the length of a pause.
unfoldable pub shift_effect : ℕ → Effect → Effect
shift_effect by e =
    if e.running
    then record e {
      operation_start = e.operation_start + by;
      start = e.start + by;
      end = elim e.end [ none ↦ none | some t ↦ some (t + by) ];
    }
    else e

abbrev resumed : RumbleState → RumbleState
resumed s = record s { paused = false; pause_started = none }

resume_since : ℕ → RumbleState → Option ℕ → RumbleState
resume_since now s none = resumed s
resume_since now s (some p) =
    resumed (record s { effects = map (shift_effect (now - p)) s.effects })

unfoldable pub continue_effects : ℕ → RumbleState → RumbleState
unfolding resume_since
continue_effects now s = if s.paused then resume_since now s s.pause_started else resumed s
