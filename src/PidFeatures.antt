-- ===== src/PidFeatures.antt =====
-- `GenericPidFeatureState` of src/platform/windows/shared/generic_pid_protocol.hpp: the driver's
-- side of the handshake in which DirectInput creates, plays and frees effect blocks.
pub mod Pool
pub mod Playing
mod Tests
use plank_libvirtualhid.Common.{
  ℕ, zero, suc, ◌+◌, ◌-◌, ◌/◌, ◌%◌, ◌^◌, Bool, true, false, not, ◌&&◌, ◌||◌, Option, none, some,
  List, [], ◌∷◌, length, get_or, set, replicate, is_empty, tail, ltb, leb, ◌==◌, if◌then◌else◌,
  bit_and, bit_or,
}

-- `generic_pid_max_effects`
abbrev pub max_effects : ℕ
max_effects = 40

-- `state_actuators_enabled | state_actuator_power`
abbrev pub actuators_on : ℕ
actuators_on = 0x12

abbrev pub state_effect_playing : ℕ
state_effect_playing = 0x20

pub record FeatureState : Type 0 where
  pub allocated : List Bool
  pub last_effect_block_index : ℕ
  pub load_status : ℕ
  pub state_effect_block_index : ℕ
  pub state_flags : ℕ

abbrev pub new_features : FeatureState
new_features = record {
  allocated = replicate max_effects false;
  last_effect_block_index = 0;
  load_status = 0;
  state_effect_block_index = 0;
  state_flags = actuators_on;
}

unfoldable pub payload : ℕ → List ℕ → List ℕ
payload report_id report =
    if not (is_empty report) && get_or report 0 0 == report_id then tail report else report

-- The position of the first block that is free, as the loop of `create_effect` finds it.
unfoldable pub first_free : List Bool → Option ℕ
first_free [] = none
first_free (false ∷ bs) = some 0
first_free (true ∷ bs) = elim (first_free bs) [ none ↦ none | some i ↦ some (suc i) ]

-- The block that `create_effect` takes, and its answer.
unfoldable pub allocate : FeatureState → Option ℕ → FeatureState
allocate s none = record s { last_effect_block_index = 0; load_status = 2 }
allocate s (some i) = record s {
  allocated = set s.allocated i true;
  last_effect_block_index = (i + 1) % 256;
  load_status = 1;
}

unfoldable pub create_effect : List ℕ → FeatureState → FeatureState
create_effect bytes s =
    if is_empty bytes || ltb (get_or bytes 0 0) 1 || ltb 12 (get_or bytes 0 0)
    then record s { last_effect_block_index = 0; load_status = 3 }
    else allocate s (first_free s.allocated)

-- `flags & ~mask` on a byte.
abbrev pub clear_flag : ℕ → ℕ → ℕ
clear_flag flags mask = bit_and flags (255 - mask)

unfoldable pub free_effect : ℕ → FeatureState → FeatureState
free_effect index s =
    if index == 0 || ltb (length s.allocated) index
    then s
    else if s.state_effect_block_index == index
    then record s {
      allocated = set s.allocated (index - 1) false;
      state_effect_block_index = 0;
      state_flags = clear_flag s.state_flags state_effect_playing;
    }
    else record s { allocated = set s.allocated (index - 1) false }

-- The flags after an operation on an effect.
unfoldable pub operated : ℕ → ℕ → ℕ
operated operation flags =
    if operation == 1 || operation == 2
    then bit_or flags state_effect_playing
    else if operation == 3
    then clear_flag flags state_effect_playing
    else flags

unfoldable pub effect_operation : ℕ → ℕ → FeatureState → FeatureState
effect_operation index operation s =
    if index == 0 || ltb (length s.allocated) index || not (get_or s.allocated (index - 1) false)
    then s
    else record s {
      state_effect_block_index = index;
      state_flags = operated operation s.state_flags;
    }

unfoldable pub device_control : ℕ → FeatureState → FeatureState
device_control command s =
    if command == 1
    then record s { state_flags = bit_or s.state_flags actuators_on }
    else if command == 2
    then record s { state_flags = clear_flag s.state_flags 0x02 }
    else if command == 3
    then record s {
      state_effect_block_index = 0;
      state_flags = clear_flag s.state_flags state_effect_playing;
    }
    else if command == 4
    then record new_features { allocated = replicate (length s.allocated) false }
    else if command == 5
    then record s { state_flags = bit_or s.state_flags 0x01 }
    else if command == 6
    then record s { state_flags = clear_flag s.state_flags 0x01 }
    else s

-- `if (!data.empty()) …` around a call with the first byte.
unfoldable pub on_first : List ℕ → (ℕ → FeatureState → FeatureState) → FeatureState → FeatureState
on_first [] call s = s
on_first (b ∷ bs) call s = call b s

unfoldable pub handle_set_feature : ℕ → List ℕ → FeatureState → Bool × FeatureState
handle_set_feature report_id report s =
    let bytes = payload report_id report in
    if report_id == 0x11
    then (true, create_effect bytes s)
    else if report_id == 0x1B
    then (true, on_first bytes free_effect s)
    else if report_id == 0x1C
    then (true, on_first bytes device_control s)
    else (false, s)

unfoldable pub handle_output : ℕ → List ℕ → FeatureState → Bool × FeatureState
handle_output report_id report s =
    let bytes = payload report_id report in
    if report_id == 0x1A
    then (
      true,
      if leb 2 (length bytes) then effect_operation (get_or bytes 0 0) (get_or bytes 1 0) s else s,
    )
    else if report_id == 0x1B
    then (true, on_first bytes free_effect s)
    else if report_id == 0x1C
    then (true, on_first bytes device_control s)
    else (false, s)

unfoldable pub count_true : List Bool → ℕ
count_true [] = 0
count_true (false ∷ bs) = count_true bs
count_true (true ∷ bs) = suc (count_true bs)

unfoldable pub ram_pool_available : FeatureState → ℕ
ram_pool_available s = (65535 - count_true s.allocated % 2 ^ 16) % 2 ^ 16

unfoldable pub get_feature_report : ℕ → FeatureState → Option (List ℕ)
get_feature_report report_id s =
    if report_id == 0x11
    then some (report_id ∷ 0 ∷ 0 ∷ 0 ∷ [])
    else if report_id == 0x12
    then some (
        report_id
        ∷ s.last_effect_block_index
        ∷ s.load_status
        ∷ (ram_pool_available s % 256)
        ∷ (ram_pool_available s / 256 % 256)
        ∷ [])
    else if report_id == 0x13
    then some (report_id ∷ 0xFF ∷ 0xFF ∷ max_effects ∷ 0x01 ∷ [])
    else if report_id == 0x14
    then some (report_id ∷ s.state_effect_block_index ∷ s.state_flags ∷ [])
    else none
