-- ===== src/Report/Tests.antt =====
-- The theorems on reports at concrete reports, and some runs of the parsers.
use plank_libvirtualhid.Common.{
  ℕ, ◌+◌, ◌*◌, ◌/◌, ◌%◌, ◌≤◌, ◌≡◌, refl, true, false, none, some, List, [], ◌∷◌, length, take,
  replicate, bit, max, ◌==◌, arith,
}
use plank_libvirtualhid.Common.Float.{Float}
use plank_libvirtualhid.Types.{
  DeviceProfile, DeviceType, GamepadProfileKind, BusType, to_underlying,
}
use plank_libvirtualhid.Types.ButtonSet.{ButtonSet}
use plank_libvirtualhid.Types.ButtonSet
use plank_libvirtualhid.Report.Crc.{
  crc32, crc_matches, write_playstation_crc, write_playstation_crc_lem,
}
use plank_libvirtualhid.Report.ButtonBits.{
  standard_gamepad_button_bits, xbox_gip_button_bits, pressed_at, standard_layout, xbox_layout,
  button_words_lem,
}
use plank_libvirtualhid.Report.Hat.{
  Lean, hat_from_buttons, hat_vertical, hat_horizontal, xbox_gip_hat_from_buttons, dpad_hat_bits,
  hat_from_buttons_lem,
}
use plank_libvirtualhid.Report.PidReport.{
  amplitude_at, pid_rumble_payload_offset, decode_pid_rumble_report, IsScaled,
  decode_pid_rumble_report_lem,
}
use plank_libvirtualhid.Report.SwitchReport.{
  amplitude, decode_switch_rumble_report, decode_switch_rumble_report_lem,
}
use plank_libvirtualhid.Report.PlayStation.{
  output_seed, dualsense_common_output_offset, dualshock4_common_output_offset,
  written_report_accepted,
}

abbrev pressed : ButtonSet
pressed = record { bits = 0x2801 }

abbrev profile : GamepadProfileKind → DeviceProfile
profile kind = record {
  device_type = DeviceType.gamepad;
  gamepad_kind = kind;
  bus_type = BusType.usb;
  vendor_id = 0;
  product_id = 0;
  version = 0;
  report_id = 1;
  input_report_size = 64;
  output_report_size = 48;
  name = [];
  manufacturer = [];
  capabilities = record {
    supports_rumble = true;
    supports_motion = false;
    supports_touchpad = false;
    supports_rgb_led = false;
    supports_battery = false;
    supports_adaptive_triggers = false;
  };
  report_descriptor = [];
}

-- Fractions in place of `float`.
abbrev exact : Float
exact = record {
  Number = ℕ × ℕ;
  of_ℕ = λ n. (n, 1);
  mul = λ p q. (p.0 * q.0, p.1 * q.1);
  div = λ p q. (p.0 * q.1, p.1 * q.0);
  clamp = λ p lo hi. p;
  lround = λ p. (2 * p.0 + p.1) / (2 * p.1);
}

-- The standard check value of CRC-32.
crc_of_digits :
    crc32 (0x31 ∷ 0x32 ∷ 0x33 ∷ 0x34 ∷ 0x35 ∷ 0x36 ∷ 0x37 ∷ 0x38 ∷ 0x39 ∷ []) 0 ≡ 0xCBF43926
unfolding crc32
crc_of_digits = refl

hat_from_buttons_lem_example :
    let hat = hat_from_buttons pressed in
    (hat ≤ 8)
    × (hat_vertical hat ≡ Lean.ahead)
    × (hat_horizontal hat ≡ Lean.back)
    × (xbox_gip_hat_from_buttons pressed ≡ (hat + 1) % 9)
    × (dpad_hat_bits pressed ≡ hat * 4096)
unfolding ButtonSet.test to_underlying
hat_from_buttons_lem_example = hat_from_buttons_lem pressed

button_words_lem_example :
    ((bit 12 (standard_gamepad_button_bits pressed) == 1) ≡ pressed_at 12 standard_layout pressed)
    × ((bit 12 (xbox_gip_button_bits pressed) == 1) ≡ pressed_at 12 xbox_layout pressed)
button_words_lem_example = button_words_lem 12 pressed (omega arith)

write_playstation_crc_lem_example :
    (crc_matches (write_playstation_crc (replicate 8 7) 0xA1) 0xA1 ≡ true)
    × (length (write_playstation_crc (replicate 8 7) 0xA1) ≡ 8)
    × (take 4 (write_playstation_crc (replicate 8 7) 0xA1) ≡ replicate 4 7)
write_playstation_crc_lem_example =
    write_playstation_crc_lem (replicate 8 7) 0xA1 (omega arith) (omega arith) (omega arith)

abbrev four_motors : List ℕ
four_motors = 0x0F ∷ 100 ∷ 0 ∷ 50 ∷ 1 ∷ 255 ∷ 0 ∷ 0 ∷ []

decode_pid_rumble_report_lem_example :
    let a = amplitude_at four_motors 0 in
    (decode_pid_rumble_report (profile GamepadProfileKind.xbox_one) four_motors ≡ some a)
    × IsScaled true 100 a.left_trigger
    × IsScaled true 0 a.right_trigger
    × IsScaled true 50 a.low_frequency
    × IsScaled true 1 a.high_frequency
unfolding pid_rumble_payload_offset
decode_pid_rumble_report_lem_example =
    decode_pid_rumble_report_lem (profile GamepadProfileKind.xbox_one) four_motors 0 refl
      (omega arith) (omega arith) (omega arith) (omega arith) (omega arith)

abbrev switch_report : List ℕ
switch_report = 0x10 ∷ 0 ∷ 0 ∷ 0xC9 ∷ 0x80 ∷ 0x41 ∷ 0 ∷ 0x00 ∷ 0x01 ∷ 0x72 ∷ []

decode_switch_rumble_report_lem_example :
    decode_switch_rumble_report switch_report
    ≡ some (record { low_frequency = max 921 65535; high_frequency = max 65535 0 })
unfolding amplitude
decode_switch_rumble_report_lem_example =
    decode_switch_rumble_report_lem switch_report 100 3 0 100 (omega arith) refl (omega arith)
      (omega arith) (omega arith) (omega arith)
      (record {
        spare = 1;
        rest = 0;
        spare_lt = omega arith;
        rest_lt = omega arith;
        high_byte = refl;
        middle_byte = refl;
        low_byte = refl;
      })
      (record {
        spare = 0;
        rest = 1;
        spare_lt = omega arith;
        rest_lt = omega arith;
        high_byte = refl;
        middle_byte = refl;
        low_byte = refl;
      })

abbrev usb_report : List ℕ
usb_report = 0x02 ∷ replicate 47 0

abbrev usb_report4 : List ℕ
usb_report4 = 0x05 ∷ replicate 31 0

abbrev bluetooth_report : List ℕ
bluetooth_report = 0x31 ∷ 2 ∷ replicate 76 1

written_report_accepted_example :
    (dualsense_common_output_offset (write_playstation_crc bluetooth_report output_seed) ≡ some 2)
    × (dualshock4_common_output_offset (write_playstation_crc bluetooth_report output_seed) ≡ none)
written_report_accepted_example =
    written_report_accepted bluetooth_report (omega arith) (omega arith)
