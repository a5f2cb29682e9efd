-- ===== src/PidRumble/Safety.antt =====
-- What the reports of a driver can and cannot make a `GenericPidRumbleState` do.
use plank_libvirtualhid.Common.Float.{Float}
use plank_libvirtualhid.Common.{
  ℕ, zero, suc, ◌≤◌, ◌<◌, ◌≡◌, refl, ◌∙◌, Bool, true, false, not, ◌&&◌, ◌||◌, some, List, [], ◌∷◌,
  map, ltb, ◌==◌, if◌then◌else◌, arith, length, get_or, set, length-map,
}
use plank_libvirtualhid.PidRumble.{
  Effect, new_effect, RumbleState, Update, halt, effect_index, effect_at, start_effect,
  stop_all_effects, expire_effects, continue_effects,
}
use plank_libvirtualhid.PidRumble.Reports.{
  current_strength, current_update, handle_set_effect, handle_magnitude, handle_effect_operation,
  handle_block_free, handle_device_control, handle_device_gain, handle_output_report, advance,
  controlled, dispatch,
}

-- Device control report with the command to enable the actuators, or to reset the device.
abbrev pub enables : List ℕ → Bool
enables report = get_or report 0 0 == 0x1C && (get_or report 1 0 == 1 || get_or report 1 0 == 4)

-- What a driver sends and a timer does, with the time of each.
pub data Input : Type 0 where
  reported : List ℕ → Input
  ticked : Input

abbrev pub keeps_disabled : Input → Bool
keeps_disabled (reported report) = not (enables report)
keeps_disabled ticked = true

abbrev pub AllDisabled : List (ℕ × Input) → Type 0
AllDisabled [] = Unit
AllDisabled ((now, i) ∷ is) = (keeps_disabled i ≡ true) × AllDisabled is

abbrev pub AllSilent : List Update → Type 0
AllSilent [] = Unit
AllSilent (u ∷ us) = (u.strength ≡ 0) × AllSilent us

module _ (double : Float) where
  -- With the actuators disabled an update carries no strength.
  abbrev IsSilent : Update × RumbleState → Type 0
  IsSilent r = (r.0.strength ≡ 0) × (r.1.actuators_enabled ≡ false)

  current_update-IsSilent :
      (changed : Bool) (now : ℕ) (s : RumbleState)
      → s.actuators_enabled ≡ false
      → IsSilent (current_update double changed now s)
  unfolding current_update current_strength
  current_update-IsSilent changed now s h = ground arith

  expire-disabled :
      (now : ℕ) (s : RumbleState) → (expire_effects now s).actuators_enabled ≡ s.actuators_enabled
  unfolding expire_effects
  expire-disabled now s = ground arith

  set_effect-IsSilent :
      (bytes : List ℕ) (now : ℕ) (s : RumbleState)
      → s.actuators_enabled ≡ false
      → IsSilent (handle_set_effect double bytes now s)
  unfolding handle_set_effect current_update current_strength
  set_effect-IsSilent bytes now s h = ground arith

  magnitude-IsSilent :
      (bytes : List ℕ) (kind now : ℕ) (s : RumbleState)
      → s.actuators_enabled ≡ false
      → IsSilent (handle_magnitude double bytes kind now s)
  unfolding handle_magnitude current_update current_strength
  magnitude-IsSilent bytes kind now s h = ground arith

  operation-IsSilent :
      (bytes : List ℕ) (now : ℕ) (s : RumbleState)
      → s.actuators_enabled ≡ false
      → IsSilent (handle_effect_operation double bytes now s)
  unfolding handle_effect_operation current_update current_strength stop_all_effects
  operation-IsSilent bytes now s h = ground arith

  block_free-IsSilent :
      (bytes : List ℕ) (now : ℕ) (s : RumbleState)
      → s.actuators_enabled ≡ false
      → IsSilent (handle_block_free double bytes now s)
  unfolding handle_block_free current_update current_strength
  block_free-IsSilent bytes now s h = ground arith

  continue-disabled :
      (now : ℕ) (s : RumbleState) → (continue_effects now s).actuators_enabled ≡ s.actuators_enabled
  unfolding continue_effects
  continue-disabled now s = ground arith

  controlled-disabled :
      (command now : ℕ) (s : RumbleState)
      → s.actuators_enabled ≡ false
      → (command == 1 || command == 4) ≡ false
      → (controlled double command now s).actuators_enabled ≡ false
  unfolding controlled stop_all_effects
  controlled-disabled command now s h k = ground (arith, continue-disabled now s)

  control-IsSilent :
      (bytes : List ℕ) (now : ℕ) (s : RumbleState)
      → s.actuators_enabled ≡ false
      → (get_or bytes 0 0 == 1 || get_or bytes 0 0 == 4) ≡ false
      → IsSilent (handle_device_control double bytes now s)
  unfolding handle_device_control
  control-IsSilent bytes now s h k = ground (
    arith,
    current_update-IsSilent true now (controlled double (get_or bytes 0 0) now s)
        (controlled-disabled (get_or bytes 0 0) now s h k),
  )

  gain-IsSilent :
      (bytes : List ℕ) (now : ℕ) (s : RumbleState)
      → s.actuators_enabled ≡ false
      → IsSilent (handle_device_gain double bytes now s)
  unfolding handle_device_gain current_update current_strength
  gain-IsSilent bytes now s h = ground arith

  dispatch-IsSilent :
      (id : ℕ) (bytes : List ℕ) (now : ℕ) (s : RumbleState)
      → s.actuators_enabled ≡ false
      → enables (id ∷ bytes) ≡ false
      → IsSilent (dispatch double id bytes now s)
  unfolding dispatch
  dispatch-IsSilent id bytes now s h k = ground (
    arith,
    set_effect-IsSilent bytes now s h,
    magnitude-IsSilent bytes 1 now s h,
    magnitude-IsSilent bytes 2 now s h,
    operation-IsSilent bytes now s h,
    block_free-IsSilent bytes now s h,
    control-IsSilent bytes now s h,
    gain-IsSilent bytes now s h,
  )

  unfoldable pub respond : RumbleState → ℕ → Input → Update × RumbleState
  respond s now (reported report) = handle_output_report double report now s
  respond s now ticked = advance double now s

  respond-IsSilent :
      (s : RumbleState) (now : ℕ) (i : Input)
      → s.actuators_enabled ≡ false
      → keeps_disabled i ≡ true
      → IsSilent (respond s now i)
  unfolding respond handle_output_report advance current_strength
  respond-IsSilent s now (reported []) h k = (refl, h)
  respond-IsSilent s now (reported (id ∷ bytes)) h k =
      dispatch-IsSilent id bytes now (expire_effects now s) (expire-disabled now s ∙ h)
        (ground arith)
  respond-IsSilent s now ticked h k = ground (arith, expire-disabled now s)

  -- The updates that a history of inputs gives.
  unfoldable pub responses : RumbleState → List (ℕ × Input) → List Update
  responses s [] = []
  responses s ((now, i) ∷ is) = let r = respond s now i in r.0 ∷ responses r.1 is

  -- Once the actuators are disabled, no report but the commands to enable the actuators or to
  -- reset the device, and no passing of time, gives an update with a strength other than zero.
  pub responses-AllSilent :
      (s : RumbleState) (inputs : List (ℕ × Input))
      → s.actuators_enabled ≡ false
      → AllDisabled inputs
      → AllSilent (responses s inputs)
  unfolding responses
  responses-AllSilent s [] h k = tt
  responses-AllSilent s ((now, i) ∷ is) h k =
      let r = respond-IsSilent s now i h k.0 in
      (r.0, responses-AllSilent (respond s now i).1 is r.1 k.1)

-- Reading the running flags of an effect list after a halt of all and a start of one.
running-halt : (es : List Effect) (j : ℕ) → (get_or (map halt es) j new_effect).running ≡ false
running-halt [] j = refl
running-halt (e ∷ es) zero = refl
running-halt (e ∷ es) (suc j) = running-halt es j

running-set :
    (es : List Effect) (i j : ℕ) (e : Effect)
    → i < length es
    → (get_or (set es i e) j new_effect).running
      ≡ (if j == i then e.running else (get_or es j new_effect).running)
running-set [] i j e h = elim h [ ]
running-set (x ∷ es) zero zero e h = refl
running-set (x ∷ es) zero (suc j) e h = ground arith
running-set (x ∷ es) (suc i) zero e h = ground arith
running-set (x ∷ es) (suc i) (suc j) e h = ground (arith, running-set es i j e (omega arith))

start-running : (e : Effect) (loops now : ℕ) → (start_effect e loops now).running ≡ true
unfolding start_effect
start-running e loops now = ground arith

update-running :
    (double : Float) (s : RumbleState) (now j : ℕ)
    → effect_at (current_update double true now s).1 j ≡ effect_at s j
unfolding current_update
update-running double s now j = refl

-- The operation that starts an effect solo leaves that effect running and no other.
pub handle_effect_operation-solo :
    (double : Float) (bytes : List ℕ) (now i j : ℕ) (s : RumbleState)
    → 2 ≤ length bytes
    → get_or bytes 1 0 ≡ 2
    → effect_index (get_or bytes 0 0) ≡ some i
    → i < length s.effects
    → (effect_at (handle_effect_operation double bytes now s).1 j).running ≡ (j == i)
unfolding handle_effect_operation stop_all_effects current_update
handle_effect_operation-solo double bytes now i j s h op sel b =
    let loops = if ltb 2 (length bytes) then get_or bytes 2 0 else 1 in
    let e = start_effect (get_or (map halt s.effects) i new_effect) loops now in
    ground (
      arith,
      start-running (get_or (map halt s.effects) i new_effect) loops now,
      running-set (map halt s.effects) i j e (omega (arith, length-map s.effects halt)),
      running-halt s.effects j,
    )
