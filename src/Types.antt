-- ===== src/Types.antt =====
-- src/include/libvirtualhid/types.hpp and src/core/types.cpp: the library's shared data types, the
-- status of an operation, and the packed set of buttons.
pub mod ButtonSet
pub mod Buttons
pub mod Options
use Prim.Native.String.{String}
pub use plank_libvirtualhid.Common.{Text}
use plank_libvirtualhid.Common.{ℕ, Bool, true, false, List, [], replicate}

pub data ErrorCode : Type 0 where
  ok invalid_argument backend_unavailable device_closed unsupported_profile : ErrorCode
  license_required license_invalid activation_limit_reached network_unavailable : ErrorCode
  backend_failure : ErrorCode

pub record OperationStatus : Type 0 where
  pub code : ErrorCode
  pub message : String

abbrev pub success : OperationStatus
success = record { code = ErrorCode.ok; message = "" }

-- A failure with the code `ok` is a success.
abbrev pub failure : ErrorCode → String → OperationStatus
failure code message = elim code [
  | ErrorCode.ok ↦ success
  | other ↦ record { code = other; message = message }
]

abbrev pub is_ok_code : ErrorCode → Bool
is_ok_code ErrorCode.ok = true
is_ok_code _ = false

abbrev pub is_ok : OperationStatus → Bool
is_ok s = is_ok_code s.code

pub data DeviceType : Type 0 where
  gamepad keyboard mouse touchscreen trackpad pen_tablet : DeviceType

pub data BusType : Type 0 where
  unknown usb bluetooth : BusType

pub data GamepadProfileKind : Type 0 where
  generic xbox_360 xbox_one xbox_series dualsense switch_pro dualshock4 : GamepadProfileKind

pub record GamepadProfileCapabilities : Type 0 where
  pub supports_rumble : Bool
  pub supports_motion : Bool
  pub supports_touchpad : Bool
  pub supports_rgb_led : Bool
  pub supports_battery : Bool
  pub supports_adaptive_triggers : Bool

pub record DeviceProfile : Type 0 where
  pub device_type : DeviceType
  pub gamepad_kind : GamepadProfileKind
  pub bus_type : BusType
  pub vendor_id : ℕ
  pub product_id : ℕ
  pub version : ℕ
  pub report_id : ℕ
  pub input_report_size : ℕ
  pub output_report_size : ℕ
  pub name : Text
  pub manufacturer : Text
  pub capabilities : GamepadProfileCapabilities
  pub report_descriptor : List ℕ

pub data GamepadButton : Type 0 where
  a b x y back start guide left_stick right_stick left_shoulder right_shoulder : GamepadButton
  dpad_up dpad_down dpad_left dpad_right misc1 touchpad : GamepadButton
  paddle1 paddle2 paddle3 paddle4 : GamepadButton

-- `std::to_underlying(button)`
unfoldable pub to_underlying : GamepadButton → ℕ
to_underlying a = 0
to_underlying b = 1
to_underlying x = 2
to_underlying y = 3
to_underlying back = 4
to_underlying start = 5
to_underlying guide = 6
to_underlying left_stick = 7
to_underlying right_stick = 8
to_underlying left_shoulder = 9
to_underlying right_shoulder = 10
to_underlying dpad_up = 11
to_underlying dpad_down = 12
to_underlying dpad_left = 13
to_underlying dpad_right = 14
to_underlying misc1 = 15
to_underlying touchpad = 16
to_underlying paddle1 = 17
to_underlying paddle2 = 18
to_underlying paddle3 = 19
to_underlying paddle4 = 20

pub data GamepadOutputKind : Type 0 where
  rumble rgb_led adaptive_triggers raw_report trigger_rumble : GamepadOutputKind

pub record GamepadOutput : Type 0 where
  pub kind : GamepadOutputKind
  pub low_frequency_rumble : ℕ
  pub high_frequency_rumble : ℕ
  pub left_trigger_rumble : ℕ
  pub right_trigger_rumble : ℕ
  pub red : ℕ
  pub green : ℕ
  pub blue : ℕ
  pub adaptive_trigger_flags : ℕ
  pub left_trigger_effect_type : ℕ
  pub right_trigger_effect_type : ℕ
  pub left_trigger_effect : List ℕ
  pub right_trigger_effect : List ℕ
  pub raw_report : List ℕ

-- A value-initialised `GamepadOutput` with the given report.
abbrev pub plain_output : List ℕ → GamepadOutput
plain_output report = record {
  kind = GamepadOutputKind.raw_report;
  low_frequency_rumble = 0;
  high_frequency_rumble = 0;
  left_trigger_rumble = 0;
  right_trigger_rumble = 0;
  red = 0;
  green = 0;
  blue = 0;
  adaptive_trigger_flags = 0;
  left_trigger_effect_type = 0;
  right_trigger_effect_type = 0;
  left_trigger_effect = replicate 10 0;
  right_trigger_effect = replicate 10 0;
  raw_report = report;
}
