-- ===== src/Adapter/State.antt =====
-- `GamepadStateAdapter` of src/core/gamepad_adapter.cpp, which keeps the state of a gamepad and
-- submits the whole of it after each change, and the gamepad's own `submit` of
-- src/core/runtime.cpp. The packing and the normalization of a state, whose arithmetic is that of
-- `float`, are parameters, and so is the type of its numbers.
pub mod Synced
use Prim.Native.String.{String}
use plank_libvirtualhid.Common.{
  ℕ, Bool, true, false, not, Option, none, some, List, [], ◌∷◌, length, set, is_empty, leb,
  if◌then◌else◌,
}
use plank_libvirtualhid.Types.{
  OperationStatus, ErrorCode, success, failure, is_ok, DeviceProfile, GamepadButton,
}
use plank_libvirtualhid.Types.Options.{CreateGamepadOptions}
use plank_libvirtualhid.Types.ButtonSet.{ButtonSet, no_buttons}
use plank_libvirtualhid.Types.ButtonSet
use plank_libvirtualhid.Runtime.Device.{Device, close, on_backend, record_event}
use plank_libvirtualhid.Adapter.Support.{
  GamepadProfileSupport, no_support, gamepad_profile_support, supports_gamepad_button,
}

pub record Stick (Number : Type 0) : Type 0 where
  pub x : Number
  pub y : Number

pub record Vector3 (Number : Type 0) : Type 0 where
  pub x : Number
  pub y : Number
  pub z : Number

pub data GamepadBatteryState : Type 0 where
  unknown discharging charging full : GamepadBatteryState
  voltage_or_temperature_error temperature_error charging_error : GamepadBatteryState

pub record GamepadBattery : Type 0 where
  pub state : GamepadBatteryState
  pub percentage : ℕ

pub record GamepadTouchContact (Number : Type 0) : Type 0 where
  pub id : ℕ
  pub active : Bool
  pub x : Number
  pub y : Number

pub record GamepadState (Number : Type 0) : Type 0 where
  pub buttons : ButtonSet
  pub left_stick : Stick Number
  pub right_stick : Stick Number
  pub left_trigger : Number
  pub right_trigger : Number
  pub acceleration : Option (Vector3 Number)
  pub gyroscope : Option (Vector3 Number)
  pub battery : Option GamepadBattery
  pub touchpad_contacts : List (GamepadTouchContact Number)

module _ {Number : Type 0} (zero : Number) where
  abbrev pub no_contact : GamepadTouchContact Number
  no_contact = record { id = 0; active = false; x = zero; y = zero }

  -- `GamepadState state_;`
  abbrev pub neutral_state : GamepadState Number
  neutral_state = record {
    buttons = no_buttons;
    left_stick = record { x = zero; y = zero };
    right_stick = record { x = zero; y = zero };
    left_trigger = zero;
    right_trigger = zero;
    acceleration = none;
    gyroscope = none;
    battery = none;
    touchpad_contacts = no_contact ∷ no_contact ∷ [];
  }

-- What a gamepad remembers of its last event: the normalized state and the report.
abbrev pub LastSubmit : Type 0 → Type 0
LastSubmit Number = GamepadState Number × List ℕ

abbrev pub Gamepad : Type 0 → Type 0 → Type 0
Gamepad Handle Number = Device Handle CreateGamepadOptions (LastSubmit Number)

pub record GamepadStateAdapter (Handle Number : Type 0) : Type 0 where
  pub gamepad : Option (Gamepad Handle Number)
  pub support : GamepadProfileSupport
  pub state : GamepadState Number

-- The constructor.
unfoldable pub adopt :
    {Handle Number : Type 0}
    → Number
    → Option (Gamepad Handle Number)
    → GamepadStateAdapter Handle Number
adopt zero none = record { gamepad = none; support = no_support; state = neutral_state zero }
adopt zero (some d) = record {
  gamepad = some d;
  support = gamepad_profile_support d.options.profile;
  state = neutral_state zero;
}

abbrev pub missing_gamepad : OperationStatus
missing_gamepad = failure ErrorCode.device_closed "gamepad adapter has no owned gamepad"

abbrev pub unsupported_feature : String → OperationStatus
unsupported_feature feature = failure ErrorCode.unsupported_profile feature

abbrev pub no_motion : String
no_motion = "selected gamepad profile cannot expose motion sensor input"

abbrev pub no_battery : String
no_battery = "selected gamepad profile cannot expose battery input"

abbrev pub no_touchpad : String
no_touchpad = "selected gamepad profile cannot expose touchpad input"

unfoldable pub button_supported :
    {Handle Number : Type 0} → Option (Gamepad Handle Number) → GamepadButton → Bool
button_supported none button = false
button_supported (some d) button = supports_gamepad_button d.options.profile button

module _ {World Handle Number : Type 0}
    (pack_input_report : DeviceProfile → GamepadState Number → List ℕ)
    (normalize_state : GamepadState Number → GamepadState Number)
    (backend_submit : Handle → GamepadState Number → List ℕ → World → OperationStatus × World) where
  -- `Gamepad::submit`
  unfoldable pub gamepad_submit :
      GamepadState Number
      → Gamepad Handle Number
      → World
      → OperationStatus × Gamepad Handle Number × World
  gamepad_submit state d w =
      let report = pack_input_report d.options.profile state in
      let normalized = normalize_state state in
      if not d.is_open
      then (failure ErrorCode.device_closed "gamepad is closed", d, w)
      else if is_empty report
      then (failure ErrorCode.backend_failure "failed to pack gamepad input report", d, w)
      else record_event (λ _. (normalized, report)) d
          (on_backend d.backend (λ h. backend_submit h normalized report) w)

  unfoldable pub submit_to :
      Option (Gamepad Handle Number)
      → GamepadStateAdapter Handle Number
      → World
      → OperationStatus × GamepadStateAdapter Handle Number × World
  submit_to none a w = (missing_gamepad, a, w)
  submit_to (some d) a w =
      let r = gamepad_submit a.state d w in (r.0, record a { gamepad = some r.1 }, r.2)

  unfoldable pub submit :
      GamepadStateAdapter Handle Number
      → World
      → OperationStatus × GamepadStateAdapter Handle Number × World
  submit a w = submit_to a.gamepad a w

  -- The setters without a test: the state is changed and submitted.
  unfoldable pub change :
      (GamepadState Number → GamepadState Number)
      → GamepadStateAdapter Handle Number
      → World
      → OperationStatus × GamepadStateAdapter Handle Number × World
  change update a w = submit (record a { state = update a.state }) w

  -- The setters that need a feature of the profile.
  unfoldable pub change_for :
      Option (Gamepad Handle Number)
      → (supported : Bool) → String
      → (GamepadState Number → GamepadState Number)
      → GamepadStateAdapter Handle Number
      → World
      → OperationStatus × GamepadStateAdapter Handle Number × World
  change_for none supported feature update a w = (missing_gamepad, a, w)
  change_for (some d) supported feature update a w =
      if not supported then (unsupported_feature feature, a, w) else change update a w

  unfoldable pub contact_for :
      Option (Gamepad Handle Number)
      → ℕ
      → GamepadTouchContact Number
      → GamepadStateAdapter Handle Number
      → World
      → OperationStatus × GamepadStateAdapter Handle Number × World
  contact_for none index contact a w = (missing_gamepad, a, w)
  contact_for (some d) index contact a w =
      if not a.support.supports_touchpad
      then (unsupported_feature no_touchpad, a, w)
      else if leb (length a.state.touchpad_contacts) index
      then (failure ErrorCode.invalid_argument "touchpad contact index is out of range", a, w)
      else change (λ s. record s { touchpad_contacts = set s.touchpad_contacts index contact }) a w

  -- `create`, from what the runtime's `create_gamepad` gives.
  unfoldable pub created_with :
      (Handle → World → OperationStatus × World)
      → OperationStatus × GamepadStateAdapter Handle Number × World
      → OperationStatus × Option (GamepadStateAdapter Handle Number) × World
  created_with backend_close (status, a, w) =
      if is_ok status then (success, some a, w) else elim a.gamepad [
        | none ↦ (status, none, w)
        | some d ↦ (status, none, (close backend_close d w).2)
      ]

  unfoldable pub create :
      (zero : Number)
      → (Handle → World → OperationStatus × World)
      → OperationStatus × Option (Gamepad Handle Number)
      → World
      → OperationStatus × Option (GamepadStateAdapter Handle Number) × World
  create zero backend_close (status, none) w = (status, none, w)
  create zero backend_close (status, some d) w =
      created_with backend_close (submit (adopt zero (some d)) w)

-- The members that change the state; `clear_touchpad_contact` sets the contact `{}`.
pub data Setter (Number : Type 0) : Type 0 where
  set_state : GamepadState Number → Setter Number
  set_button : GamepadButton → (pressed : Bool) → Setter Number
  set_left_stick : Stick Number → Setter Number
  set_right_stick : Stick Number → Setter Number
  set_left_trigger : Number → Setter Number
  set_right_trigger : Number → Setter Number
  set_acceleration : Option (Vector3 Number) → Setter Number
  set_gyroscope : Option (Vector3 Number) → Setter Number
  set_motion : (acceleration gyroscope : Vector3 Number) → Setter Number
  clear_motion : Setter Number
  set_battery : GamepadBattery → Setter Number
  clear_battery : Setter Number
  set_touchpad_contact : (index : ℕ) → GamepadTouchContact Number → Setter Number
  clear_touchpad_contact : (index : ℕ) → Setter Number

module _ {World Handle Number : Type 0} (zero : Number)
    (pack : DeviceProfile → GamepadState Number → List ℕ)
    (normalize : GamepadState Number → GamepadState Number)
    (backend : Handle → GamepadState Number → List ℕ → World → OperationStatus × World) where
  unfoldable pub apply :
      Setter Number
      → GamepadStateAdapter Handle Number
      → World
      → OperationStatus × GamepadStateAdapter Handle Number × World
  apply (set_state state) a w = change pack normalize backend (λ _. state) a w
  apply (set_button button pressed) a w =
      change_for pack normalize backend a.gamepad (button_supported a.gamepad button)
        "selected gamepad profile cannot expose the requested button"
        (λ s. record s { buttons = ButtonSet.set s.buttons button pressed }) a w
  apply (set_left_stick stick) a w =
      change pack normalize backend (λ s. record s { left_stick = stick }) a w
  apply (set_right_stick stick) a w =
      change pack normalize backend (λ s. record s { right_stick = stick }) a w
  apply (set_left_trigger value) a w =
      change pack normalize backend (λ s. record s { left_trigger = value }) a w
  apply (set_right_trigger value) a w =
      change pack normalize backend (λ s. record s { right_trigger = value }) a w
  apply (set_acceleration acceleration) a w =
      change_for pack normalize backend a.gamepad a.support.supports_motion no_motion
        (λ s. record s { acceleration = acceleration }) a w
  apply (set_gyroscope gyroscope) a w =
      change_for pack normalize backend a.gamepad a.support.supports_motion no_motion
        (λ s. record s { gyroscope = gyroscope }) a w
  apply (set_motion acceleration gyroscope) a w =
      change_for pack normalize backend a.gamepad a.support.supports_motion no_motion
        (λ s. record s { acceleration = some acceleration; gyroscope = some gyroscope }) a w
  apply clear_motion a w =
      change_for pack normalize backend a.gamepad a.support.supports_motion no_motion
        (λ s. record s { acceleration = none; gyroscope = none }) a w
  apply (set_battery battery) a w =
      change_for pack normalize backend a.gamepad a.support.supports_battery no_battery
        (λ s. record s { battery = some battery }) a w
  apply clear_battery a w =
      change_for pack normalize backend a.gamepad a.support.supports_battery no_battery
        (λ s. record s { battery = none }) a w
  apply (set_touchpad_contact index contact) a w =
      contact_for pack normalize backend a.gamepad index contact a w
  apply (clear_touchpad_contact index) a w =
      contact_for pack normalize backend a.gamepad index (no_contact zero) a w
