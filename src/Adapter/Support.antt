-- ===== src/Adapter/Support.antt =====
-- The support queries of src/core/gamepad_adapter.cpp.
use plank_libvirtualhid.Common.{
  ℕ, Bool, true, false, not, List, [], ◌∷◌, any_of, ltb, leb, ◌==◌, if◌then◌else◌,
}
use plank_libvirtualhid.Types.{
  DeviceType, DeviceProfile, GamepadProfileKind, GamepadButton, GamepadOutputKind, to_underlying,
}
use plank_libvirtualhid.Runtime.Validate.{same_type}

pub record GamepadProfileSupport : Type 0 where
  pub supports_rumble : Bool
  pub supports_trigger_rumble : Bool
  pub supports_rgb_led : Bool
  pub supports_adaptive_triggers : Bool
  pub supports_motion : Bool
  pub supports_touchpad : Bool
  pub supports_battery : Bool
  pub supports_misc1_button : Bool
  pub supports_touchpad_button : Bool
  pub supported_rear_paddle_count : ℕ

-- `GamepadProfileSupport support;`
abbrev pub no_support : GamepadProfileSupport
no_support = record {
  supports_rumble = false;
  supports_trigger_rumble = false;
  supports_rgb_led = false;
  supports_adaptive_triggers = false;
  supports_motion = false;
  supports_touchpad = false;
  supports_battery = false;
  supports_misc1_button = false;
  supports_touchpad_button = false;
  supported_rear_paddle_count = 0;
}

abbrev pub common_buttons : List GamepadButton
common_buttons =
    GamepadButton.a ∷ GamepadButton.b ∷ GamepadButton.x ∷ GamepadButton.y ∷ GamepadButton.back
    ∷ GamepadButton.start ∷ GamepadButton.guide ∷ GamepadButton.left_stick
    ∷ GamepadButton.right_stick ∷ GamepadButton.left_shoulder ∷ GamepadButton.right_shoulder
    ∷ GamepadButton.dpad_up ∷ GamepadButton.dpad_down ∷ GamepadButton.dpad_left
    ∷ GamepadButton.dpad_right ∷ []

unfoldable pub is_common_button : GamepadButton → Bool
unfolding to_underlying
is_common_button button =
    any_of (λ common. to_underlying common == to_underlying button) common_buttons

unfoldable pub supports_common_misc1_button : GamepadProfileKind → Bool
supports_common_misc1_button GamepadProfileKind.generic = true
supports_common_misc1_button GamepadProfileKind.xbox_series = true
supports_common_misc1_button GamepadProfileKind.dualsense = true
supports_common_misc1_button GamepadProfileKind.switch_pro = true
supports_common_misc1_button GamepadProfileKind.xbox_360 = false
supports_common_misc1_button GamepadProfileKind.xbox_one = false
supports_common_misc1_button GamepadProfileKind.dualshock4 = false

unfoldable pub gamepad_profile_support : DeviceProfile → GamepadProfileSupport
gamepad_profile_support profile =
    if not (same_type profile.device_type DeviceType.gamepad)
    then no_support
    else record no_support {
      supports_rumble = profile.capabilities.supports_rumble;
      supports_rgb_led = profile.capabilities.supports_rgb_led;
      supports_adaptive_triggers = profile.capabilities.supports_adaptive_triggers;
      supports_motion = profile.capabilities.supports_motion;
      supports_touchpad = profile.capabilities.supports_touchpad;
      supports_battery = profile.capabilities.supports_battery;
      supports_misc1_button = supports_common_misc1_button profile.gamepad_kind;
      supports_touchpad_button = profile.capabilities.supports_touchpad;
    }

-- The switch on the buttons that are not common.
unfoldable pub supports_extra_button : GamepadProfileSupport → GamepadButton → Bool
supports_extra_button support GamepadButton.misc1 = support.supports_misc1_button
supports_extra_button support GamepadButton.touchpad = support.supports_touchpad_button
supports_extra_button support GamepadButton.paddle1 = leb 1 support.supported_rear_paddle_count
supports_extra_button support GamepadButton.paddle2 = leb 2 support.supported_rear_paddle_count
supports_extra_button support GamepadButton.paddle3 = leb 3 support.supported_rear_paddle_count
supports_extra_button support GamepadButton.paddle4 = leb 4 support.supported_rear_paddle_count
supports_extra_button support _ = false

unfoldable pub supports_gamepad_button : DeviceProfile → GamepadButton → Bool
supports_gamepad_button profile button =
    if not (same_type profile.device_type DeviceType.gamepad)
    then false
    else if is_common_button button
    then true
    else supports_extra_button (gamepad_profile_support profile) button

unfoldable pub supports_output_kind :
    DeviceProfile → GamepadProfileSupport → GamepadOutputKind → Bool
supports_output_kind profile support GamepadOutputKind.rumble = support.supports_rumble
supports_output_kind profile support GamepadOutputKind.trigger_rumble =
    support.supports_trigger_rumble
supports_output_kind profile support GamepadOutputKind.rgb_led = support.supports_rgb_led
supports_output_kind profile support GamepadOutputKind.adaptive_triggers =
    support.supports_adaptive_triggers
supports_output_kind profile support GamepadOutputKind.raw_report = ltb 0 profile.output_report_size

unfoldable pub supports_gamepad_output : DeviceProfile → GamepadOutputKind → Bool
supports_gamepad_output profile kind =
    if not (same_type profile.device_type DeviceType.gamepad)
    then false
    else supports_output_kind profile (gamepad_profile_support profile) kind
