-- ===== src/PidRumble/Reports.antt =====
-- `current_strength`, the handlers of the output reports, `advance` and `next_transition` of
-- src/platform/windows/shared/generic_pid_rumble.hpp.
use plank_libvirtualhid.Common.Float.{Float}
use plank_libvirtualhid.Common.{
  ℕ, ◌+◌, ◌%◌, ◌^◌, Bool, true, false, not, ◌&&◌, ◌||◌, Option, none, some, List, [], ◌∷◌, length,
  get_or, min, ltb, leb, ◌==◌, if◌then◌else◌, is_empty,
}
use plank_libvirtualhid.PidRumble.Force.{read_u16, scale_force}
use plank_libvirtualhid.PidRumble.{
  Effect, new_effect, RumbleState, new_state, Update, ignored, unchanged, changed_to, effect_index,
  effect_at, with_effect, halt, stop_all_effects, start_effect, reschedule_running_effect,
  continue_effects, expire_effects,
}

-- An effect that contributes to the strength.
unfoldable pub is_felt : ℕ → Effect → Bool
is_felt now e =
    e.running && e.started && leb e.start now && (e.effect_type == 1 || e.effect_type == 2)

-- `next_transition` looks at the end of an effect that has started, and else at its start.
unfoldable pub candidate : Effect → Option ℕ
candidate e = if e.running then (if e.started then e.end else some e.start) else none

unfoldable pub earlier : Option ℕ → Option ℕ → Option ℕ
earlier none next = next
earlier (some t) none = some t
earlier (some t) (some u) = if ltb t u then some t else some u

unfoldable pub next_of : Option ℕ → List Effect → Option ℕ
next_of next [] = next
next_of next (e ∷ es) = next_of (earlier (candidate e) next) es

unfoldable pub next_transition : RumbleState → Option ℕ
next_transition s = if s.paused then none else next_of none s.effects

module _ (double : Float) where
  -- The sum is taken in an `std::uint32_t`.
  unfoldable pub combined : ℕ → ℕ → ℕ → List Effect → ℕ
  combined device_gain now total [] = total
  combined device_gain now total (e ∷ es) =
      combined device_gain now
        (if is_felt now e
          then (total + scale_force double e.magnitude e.gain device_gain) % 2 ^ 32
          else total)
        es

  unfoldable pub current_strength : ℕ → RumbleState → ℕ
  current_strength now s =
      if not s.actuators_enabled || s.paused
      then 0
      else min (combined s.device_gain now 0 s.effects) 65535

  unfoldable pub current_update : Bool → ℕ → RumbleState → Update × RumbleState
  current_update changed now s =
      if changed
      then (
        changed_to (current_strength now s),
        record s { last_strength = current_strength now s },
      )
      else (unchanged, s)

  -- The tail of a handler whose report may select no effect.
  on_effect : Option ℕ → RumbleState → (ℕ → Update × RumbleState) → Update × RumbleState
  on_effect none s then_ = (unchanged, s)
  on_effect (some i) s then_ = then_ i

  configured : List ℕ → Effect → Effect
  configured bytes e = record e {
    effect_type = get_or bytes 1 0;
    duration = read_u16 bytes 2;
    duration_is_infinite = read_u16 bytes 2 == 65535;
    start_delay = read_u16 bytes 8;
    gain = get_or bytes 10 0;
  }

  unfoldable pub handle_set_effect : List ℕ → ℕ → RumbleState → Update × RumbleState
  unfolding on_effect configured
  handle_set_effect bytes now s =
      if leb (length bytes) 10
      then (unchanged, s)
      else on_effect (effect_index (get_or bytes 0 0)) s (λ i.
        current_update (effect_at s i).running now
          (with_effect s i (reschedule_running_effect now (configured bytes (effect_at s i)))))

  unfoldable pub handle_magnitude : List ℕ → ℕ → ℕ → RumbleState → Update × RumbleState
  unfolding on_effect
  handle_magnitude bytes expected_type now s =
      if ltb (length bytes) 3
      then (unchanged, s)
      else on_effect (effect_index (get_or bytes 0 0)) s (λ i.
        current_update (effect_at s i).running now (
          with_effect s i
            (record (effect_at s i) { effect_type = expected_type; magnitude = read_u16 bytes 1 })))

  -- What `handle_effect_operation` does to the selected effect, by the operation.
  operate : ℕ → ℕ → ℕ → ℕ → RumbleState → RumbleState
  operate op loops now i s =
      if op == 1 || op == 2
      then with_effect s i (start_effect (effect_at s i) loops now)
      else if op == 3
      then with_effect s i (halt (effect_at s i))
      else s

  unfoldable pub handle_effect_operation : List ℕ → ℕ → RumbleState → Update × RumbleState
  unfolding on_effect operate
  handle_effect_operation bytes now s =
      if ltb (length bytes) 2
      then (unchanged, s)
      else on_effect (effect_index (get_or bytes 0 0)) s (λ i. current_update true now (
          operate (get_or bytes 1 0) (if ltb 2 (length bytes) then get_or bytes 2 0 else 1) now i
            (if get_or bytes 1 0 == 2 then stop_all_effects s else s)))

  freed : Option ℕ → RumbleState → RumbleState
  freed none s = s
  freed (some i) s = with_effect s i new_effect

  unfoldable pub handle_block_free : List ℕ → ℕ → RumbleState → Update × RumbleState
  unfolding freed
  handle_block_free bytes now s =
      current_update true now
        (if is_empty bytes then s else freed (effect_index (get_or bytes 0 0)) s)

  -- Command 4: all but the last strength is as in a new state.
  unfoldable pub reset : RumbleState → RumbleState
  reset s = record new_state { last_strength = s.last_strength }

  unfoldable pub pause : ℕ → RumbleState → RumbleState
  pause now s = if s.paused then s else record s { paused = true; pause_started = some now }

  unfoldable pub controlled : ℕ → ℕ → RumbleState → RumbleState
  unfolding reset pause
  controlled command now s =
      if command == 1
      then record s { actuators_enabled = true }
      else if command == 2
      then record s { actuators_enabled = false }
      else if command == 3
      then stop_all_effects s
      else if command == 4
      then reset s
      else if command == 5
      then pause now s
      else if command == 6
      then continue_effects now s
      else s

  unfoldable pub handle_device_control : List ℕ → ℕ → RumbleState → Update × RumbleState
  unfolding controlled
  handle_device_control bytes now s =
      if is_empty bytes
      then (unchanged, s)
      else current_update true now (controlled (get_or bytes 0 0) now s)

  unfoldable pub handle_device_gain : List ℕ → ℕ → RumbleState → Update × RumbleState
  handle_device_gain bytes now s =
      current_update true now
        (if is_empty bytes then s else record s { device_gain = get_or bytes 0 0 })

  -- The `switch` on the report id.
  unfoldable pub dispatch : ℕ → List ℕ → ℕ → RumbleState → Update × RumbleState
  dispatch id bytes now s =
      if id == 0x11
      then handle_set_effect bytes now s
      else if id == 0x12
      then (unchanged, s)
      else if id == 0x14
      then handle_magnitude bytes 2 now s
      else if id == 0x15
      then handle_magnitude bytes 1 now s
      else if id == 0x1A
      then handle_effect_operation bytes now s
      else if id == 0x1B
      then handle_block_free bytes now s
      else if id == 0x1C
      then handle_device_control bytes now s
      else if id == 0x1D
      then handle_device_gain bytes now s
      else (ignored, s)

  unfoldable pub handle_output_report : List ℕ → ℕ → RumbleState → Update × RumbleState
  unfolding dispatch
  handle_output_report [] now s = (ignored, s)
  handle_output_report (id ∷ bytes) now s = dispatch id bytes now (expire_effects now s)

  unfoldable pub advance : ℕ → RumbleState → Update × RumbleState
  advance now s =
      let s' = expire_effects now s in
      let strength = current_strength now s' in
      if strength == s.last_strength
      then (unchanged, s')
      else (changed_to strength, record s' { last_strength = strength })
