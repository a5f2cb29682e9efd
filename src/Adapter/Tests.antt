-- ===== src/Adapter/Tests.antt =====
-- The theorem on support queries at an Xbox One report.
use plank_libvirtualhid.Common.{pos}
use plank_libvirtualhid.Types.{OperationStatus, success}
use plank_libvirtualhid.Types.Options.{ClientControllerType}
use plank_libvirtualhid.Runtime.Device.{new_device}
use plank_libvirtualhid.Adapter.State.{
  GamepadState, neutral_state, Gamepad, GamepadStateAdapter, adopt, set_left_trigger, apply,
}
use plank_libvirtualhid.Adapter.State.Synced.{Result, apply-Result}
use plank_libvirtualhid.Common.Float.{Float}
use plank_libvirtualhid.Common.{ℕ, ◌+◌, ◌*◌, ◌/◌, ◌≡◌, refl, true, false, some, List, [], ◌∷◌}
use plank_libvirtualhid.Types.{
  DeviceType, BusType, DeviceProfile, GamepadProfileKind, GamepadButton, GamepadOutputKind,
  to_underlying,
}
use plank_libvirtualhid.Report.PidReport.{
  decode_pid_rumble_report, amplitude_at, pid_rumble_payload_offset, too_strong,
}
use plank_libvirtualhid.Report.Parse.{parse_output_reports}
use plank_libvirtualhid.Adapter.Support.{
  supports_gamepad_output, supports_gamepad_button, is_common_button, supports_extra_button,
  gamepad_profile_support, supports_common_misc1_button,
}
use plank_libvirtualhid.Adapter.Outputs.{has_trigger_rumble, parse_output_reports-trigger_rumble}

abbrev exact : Float
exact = record {
  Number = ℕ × ℕ;
  of_ℕ = λ n. (n, 1);
  mul = λ p q. (p.0 * q.0, p.1 * q.1);
  div = λ p q. (p.0 * q.1, p.1 * q.0);
  clamp = λ p lo hi. p;
  lround = λ p. (2 * p.0 + p.1) / (2 * p.1);
}

abbrev xbox_one : DeviceProfile
xbox_one = record {
  device_type = DeviceType.gamepad;
  gamepad_kind = GamepadProfileKind.xbox_one;
  bus_type = BusType.usb;
  vendor_id = 0x045E;
  product_id = 0x02EA;
  version = 1;
  report_id = 0;
  input_report_size = 17;
  output_report_size = 9;
  name = 88 ∷ [];
  manufacturer = [];
  capabilities = record {
    supports_rumble = true;
    supports_motion = false;
    supports_touchpad = false;
    supports_rgb_led = false;
    supports_battery = false;
    supports_adaptive_triggers = false;
  };
  report_descriptor = 5 ∷ 1 ∷ [];
}

abbrev triggers : List ℕ
triggers = 0x0C ∷ 100 ∷ 40 ∷ 0 ∷ 0 ∷ 255 ∷ 0 ∷ 0 ∷ []

no_share_button : supports_gamepad_button xbox_one GamepadButton.misc1 ≡ false
unfolding supports_gamepad_button is_common_button supports_extra_button gamepad_profile_support
    supports_common_misc1_button to_underlying
no_share_button = refl

decoded : decode_pid_rumble_report xbox_one triggers ≡ some (amplitude_at triggers 0)
unfolding decode_pid_rumble_report pid_rumble_payload_offset too_strong
decoded = refl

parse_output_reports-trigger_rumble_example :
    (has_trigger_rumble (parse_output_reports exact xbox_one triggers) ≡ true)
    × (supports_gamepad_output xbox_one GamepadOutputKind.trigger_rumble ≡ false)
parse_output_reports-trigger_rumble_example =
    parse_output_reports-trigger_rumble exact xbox_one triggers (amplitude_at triggers 0) refl
      decoded

-- A gamepad whose numbers are natural numbers, and a backend that counts its calls.
abbrev pad : Gamepad ℕ ℕ
pad =
    new_device 1
      (record {
        profile = xbox_one;
        metadata = record {
          global_index = pos 0;
          client_relative_index = pos 0;
          client_type = ClientControllerType.xbox;
          has_motion_sensors = false;
          has_touchpad = false;
          has_rgb_led = false;
          has_battery = false;
          stable_id = [];
        };
      })
      (some 3) (neutral_state 0, [])

abbrev pack_triggers : DeviceProfile → GamepadState ℕ → List ℕ
pack_triggers profile s = s.left_trigger ∷ s.right_trigger ∷ []

abbrev count_calls : ℕ → GamepadState ℕ → List ℕ → ℕ → OperationStatus × ℕ
count_calls handle s report w = (success, w + 1)

abbrev adapter : GamepadStateAdapter ℕ ℕ
unfolding adopt
adapter = adopt 0 (some pad)

apply-Result_example :
    Result 0 pack_triggers
      (λ s. s)
      count_calls
      adapter.gamepad
      (apply 0 pack_triggers (λ s. s) count_calls (set_left_trigger 9) adapter 0)
apply-Result_example =
    apply-Result 0 pack_triggers (λ s. s) count_calls (set_left_trigger 9) adapter 0
