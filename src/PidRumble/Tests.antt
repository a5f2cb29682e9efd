-- ===== src/PidRumble/Tests.antt =====
-- The scheduler's theorems at concrete histories, with exact fractions for `double`.
use plank_libvirtualhid.Common.Float.{Float}
use plank_libvirtualhid.Common.{
  ℕ, ◌+◌, ◌*◌, ◌/◌, ◌≡◌, refl, Bool, true, false, none, some, List, [], ◌∷◌, replicate, ltb,
  if◌then◌else◌, arith, inl,
}
use plank_libvirtualhid.PidRumble.Force.{scale_force, read_u16}
use plank_libvirtualhid.PidRumble.{
  Effect, new_effect, RumbleState, new_state, unchanged, effect_at, with_effect, start_effect,
  continue_effects, expire_effects, expire_effect, stop_all_effects, reschedule_running_effect,
}
use plank_libvirtualhid.PidRumble.Reports.{
  is_felt, candidate, next_of, earlier, next_transition, combined, current_strength, current_update,
  dispatch, handle_output_report, handle_set_effect, handle_magnitude, handle_effect_operation,
  advance,
}
use plank_libvirtualhid.PidRumble.Schedule.{
  Later, All, Covers, AnyChangesAt, next_transition-advance, next_transition-least,
}
use plank_libvirtualhid.PidRumble.Quiet.{IsTimely, advance_quiet}
use plank_libvirtualhid.PidRumble.Pause.{later_by, continue_effects_lem, continue_misses_start}
use plank_libvirtualhid.PidRumble.Safety.{
  reported, ticked, respond, responses, AllSilent, responses-AllSilent,
  handle_effect_operation-solo,
}

abbrev Fraction : Type 0
Fraction = ℕ × ℕ

abbrev fraction_le : Fraction → Fraction → Bool
fraction_le p q = ltb (p.0 * q.1) (q.0 * p.1 + 1)

abbrev exact : Float
exact = record {
  Number = Fraction;
  of_ℕ = λ n. (n, 1);
  mul = λ p q. (p.0 * q.0, p.1 * q.1);
  div = λ p q. (p.0 * q.1, p.1 * q.0);
  clamp = λ p lo hi. if fraction_le p lo then lo else if fraction_le hi p then hi else p;
  lround = λ p. (2 * p.0 + p.1) / (2 * p.1);
}

-- One effect of half the greatest force that runs from 1000 to 3001000.
abbrev playing : Effect
playing = record new_effect {
  effect_type = 1;
  magnitude = 5000;
  duration = 3;
  duration_is_infinite = false;
  start = 1000;
  end = some 3001000;
  running = true;
  started = true;
}

abbrev one_playing : RumbleState
one_playing = record new_state { effects = playing ∷ replicate 3 new_effect }

abbrev paused_at : ℕ → RumbleState
paused_at p = record one_playing { paused = true; pause_started = some p }

force_half : scale_force exact 5000 255 255 ≡ 32768
unfolding scale_force
force_half = refl

-- Two effects are combined; the first ends, then the second.
abbrev set_report : List ℕ
set_report = 0x11 ∷ 1 ∷ 1 ∷ 3 ∷ 0 ∷ 0 ∷ 0 ∷ 0 ∷ 0 ∷ 0 ∷ 0 ∷ 255 ∷ []

abbrev force_report : List ℕ
force_report = 0x15 ∷ 1 ∷ 0x88 ∷ 0x13 ∷ []

abbrev start_report : List ℕ
start_report = 0x1A ∷ 1 ∷ 1 ∷ 1 ∷ []

strengths_of_a_run :
    responses exact new_state (
      (10, reported set_report)
      ∷ (20, reported force_report)
      ∷ (30, reported start_report)
      ∷ (40, ticked)
      ∷ (3000030, ticked)
      ∷ [])
    ≡ unchanged
      ∷ unchanged
      ∷ record { recognized = true; rumble_changed = true; strength = 32768 }
      ∷ unchanged
      ∷ record { recognized = true; rumble_changed = true; strength = 0 }
      ∷ []
unfolding responses respond handle_output_report dispatch handle_set_effect handle_magnitude
    handle_effect_operation current_update current_strength combined is_felt scale_force read_u16
    expire_effects expire_effect reschedule_running_effect start_effect stop_all_effects advance
strengths_of_a_run = refl

next_transition-advance_example : Later 2000 (next_transition (advance exact 2000 one_playing).1)
next_transition-advance_example = next_transition-advance exact 2000 one_playing

next_transition-least_example :
    (AnyChangesAt 3000 one_playing.effects → Covers (next_transition one_playing) (some 3000))
    × (next_transition one_playing ≡ some 3000 → AnyChangesAt 3000 one_playing.effects)
next_transition-least_example = next_transition-least one_playing 3000 refl

playing-IsTimely : All (IsTimely 2000) one_playing.effects
playing-IsTimely = (
  record { by_now = λ r s. omega arith; ends_after = λ r. omega arith },
  (idle, (idle, (idle, tt))),
)
  where
    idle : IsTimely 2000 new_effect
    idle = record { by_now = λ r s. omega arith; ends_after = λ r. tt }

advance_quiet_example :
    advance exact 3000999 (advance exact 2500 one_playing).1
    ≡ (unchanged, (advance exact 2500 one_playing).1)
unfolding advance expire_effects expire_effect next_transition next_of candidate earlier
    current_strength combined is_felt scale_force
advance_quiet_example =
    advance_quiet exact one_playing 2000 2500 3000999 refl playing-IsTimely (omega arith)
      (omega arith) (omega arith)

continue_effects_lem_example :
    (current_strength exact 9000 (continue_effects 9000 (paused_at 2000))
      ≡ current_strength exact 2000 one_playing)
    × (next_transition (continue_effects 9000 (paused_at 2000))
        ≡ later_by 7000 (next_transition one_playing))
continue_effects_lem_example =
    continue_effects_lem exact (paused_at 2000) 2000 9000 refl refl (omega arith)

-- An endless effect of type 1 in block 1 of a device paused since 2000.
abbrev waiting : RumbleState
waiting = record new_state {
  effects = record new_effect { effect_type = 1; magnitude = 5000 } ∷ [];
  paused = true;
  pause_started = some 2000;
}

continue_misses_start_example :
    let e =
      effect_at
        (continue_effects 9000 (with_effect waiting 0 (start_effect (effect_at waiting 0) 1 5000)))
        0 in
    (is_felt 9000 e ≡ false) × (candidate e ≡ none) × (is_felt 12000 e ≡ true)
continue_misses_start_example =
    continue_misses_start waiting 0 1 2000 5000 9000 (omega arith) refl refl refl refl (inl refl)
      (omega arith) (omega arith)

responses-AllSilent_example : AllSilent (
    responses exact
      (record one_playing { actuators_enabled = false })
      ((10, reported start_report) ∷ (40, ticked) ∷ []))
responses-AllSilent_example =
    responses-AllSilent exact (record one_playing { actuators_enabled = false })
      ((10, reported start_report) ∷ (40, ticked) ∷ []) refl (refl, (refl, tt))

handle_effect_operation-solo_example :
    (effect_at (handle_effect_operation exact (2 ∷ 2 ∷ []) 50 one_playing).1 0).running ≡ false
handle_effect_operation-solo_example =
    handle_effect_operation-solo exact (2 ∷ 2 ∷ []) 50 1 0 one_playing (omega arith) refl refl
      (omega arith)
