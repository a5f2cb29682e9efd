-- ===== src/Report/PlayStation.antt =====
-- The output reports of the DualShock 4 and the DualSense in src/core/report.cpp.
use plank_libvirtualhid.Common.{
  ℕ, ◌+◌, ◌-◌, ◌%◌, ◌^◌, ◌≤◌, ◌<◌, ◌≡◌, refl, Bool, not, ◌&&◌, ◌||◌, Option, none, some, List, [],
  ◌∷◌, ◌++◌, length, take, drop, bit_and, bit_or, ltb, leb, ◌==◌, ◌!=◌, if◌then◌else◌, arith, zero,
  suc, AreBytes,
}
use plank_libvirtualhid.Common.Float.{Float}
use plank_libvirtualhid.Types.{GamepadOutput, GamepadOutputKind, plain_output}
use plank_libvirtualhid.Report.Bytes.{byte_at, has_flag}
use plank_libvirtualhid.Report.Crc.{crc_matches, write_playstation_crc, write_playstation_crc_lem}

-- `playstation_output_crc_seed`
abbrev pub output_seed : ℕ
output_seed = 0xA2

unfoldable pub dualsense_common_output_offset : List ℕ → Option ℕ
dualsense_common_output_offset report =
    if leb 48 (length report) && byte_at report 0 == 0x02
    then some 1
    else if leb 49 (length report) && byte_at report 0 == 0x31
    then (if leb 78 (length report) && not (crc_matches report output_seed)
        then none
        else (if not (has_flag (byte_at report 1) 0x02) && ltb (length report) 50
            then none
            else (if has_flag (byte_at report 1) 0x02 then some 2 else some 3)))
    else none

unfoldable pub dualshock4_common_output_offset : List ℕ → Option ℕ
dualshock4_common_output_offset report =
    if leb 32 (length report) && byte_at report 0 == 0x05
    then some 1
    else if leb 78 (length report) && byte_at report 0 == 0x11
    then (if has_flag (byte_at report 1) 0x40 && not (crc_matches report output_seed)
        then none
        else some 3)
    else none

-- An `if` with no `else` around a `push_back`.
abbrev pushed : Bool → GamepadOutput → List GamepadOutput
pushed test output = if test then output ∷ [] else []

module _ (float : Float) where
  open float use {of_ℕ, mul, div, lround}

  unfoldable pub scale_output_byte : ℕ → ℕ
  scale_output_byte value = lround (mul (div (of_ℕ value) (of_ℕ 255)) (of_ℕ 65535)) % 2 ^ 16

  -- A rumble output of two motor bytes.
  abbrev motor_output : List ℕ → ℕ → ℕ → GamepadOutput
  motor_output report motor_left motor_right = record (plain_output report) {
    kind = GamepadOutputKind.rumble;
    low_frequency_rumble = scale_output_byte motor_left;
    high_frequency_rumble = scale_output_byte motor_right;
  }

  abbrev stop_output : List ℕ → GamepadOutput
  stop_output report = record (plain_output report) { kind = GamepadOutputKind.rumble }

  abbrev led_output : List ℕ → ℕ → GamepadOutput
  led_output report at = record (plain_output report) {
    kind = GamepadOutputKind.rgb_led;
    red = byte_at report at;
    green = byte_at report (at + 1);
    blue = byte_at report (at + 2);
  }

  unfoldable pub dualshock4_outputs : List ℕ → ℕ → List GamepadOutput
  dualshock4_outputs report offset =
      let valid_flag0 = byte_at report offset in
      let valid_flag1 = byte_at report (offset + 1) in
      let motor_right = byte_at report (offset + 3) in
      let motor_left = byte_at report (offset + 4) in
      (if has_flag valid_flag0 0x01
        then motor_output report motor_left motor_right ∷ []
        else pushed (valid_flag0 == 0 && valid_flag1 == 0) (stop_output report))
      ++ pushed (has_flag valid_flag0 0x02) (led_output report (offset + 5))

  abbrev trigger_output : List ℕ → ℕ → GamepadOutput
  trigger_output report offset = record (plain_output report) {
    kind = GamepadOutputKind.adaptive_triggers;
    adaptive_trigger_flags = bit_and (byte_at report offset) (bit_or 0x08 0x04);
    left_trigger_effect_type = byte_at report (offset + 21);
    right_trigger_effect_type = byte_at report (offset + 10);
    right_trigger_effect = take 10 (drop (offset + 11) report);
    left_trigger_effect = take 10 (drop (offset + 22) report);
  }

  unfoldable pub dualsense_outputs : List ℕ → ℕ → List GamepadOutput
  dualsense_outputs report offset =
      let valid_flag0 = byte_at report offset in
      let valid_flag1 = byte_at report (offset + 1) in
      let motor_right = byte_at report (offset + 2) in
      let motor_left = byte_at report (offset + 3) in
      let valid_flag2 = byte_at report (offset + 38) in
      (if has_flag valid_flag0 0x01 || has_flag valid_flag2 0x04
        then motor_output report motor_left motor_right ∷ []
        else pushed (valid_flag0 == 0 && valid_flag1 == 0 && valid_flag2 == 0) (stop_output report))
      ++ (pushed (has_flag valid_flag1 0x04) (led_output report (offset + 44))
          ++ pushed (bit_and valid_flag0 (bit_or 0x08 0x04) != 0) (trigger_output report offset))

-- All bytes that the DualSense outputs are read from lie inside an accepted report.
pub dualsense_in_bounds :
    (report : List ℕ) (offset : ℕ)
    → dualsense_common_output_offset report ≡ some offset
    → offset + 46 < length report
unfolding dualsense_common_output_offset
dualsense_in_bounds report offset h = ground arith

-- All bytes that the DualShock 4 outputs are read from lie inside an accepted report.
pub dualshock4_in_bounds :
    (report : List ℕ) (offset : ℕ)
    → dualshock4_common_output_offset report ≡ some offset
    → offset + 7 < length report
unfolding dualshock4_common_output_offset
dualshock4_in_bounds report offset h = ground arith

byte_at-take :
    (n i : ℕ) (xs ys : List ℕ) → take n xs ≡ take n ys → i < n → byte_at xs i ≡ byte_at ys i
byte_at-take zero i xs ys e h = elim h [ ]
byte_at-take (suc n) i [] [] e h = refl
byte_at-take (suc n) i [] (y ∷ ys) e h = cc
byte_at-take (suc n) i (x ∷ xs) [] e h = cc
byte_at-take (suc n) zero (x ∷ xs) (y ∷ ys) e h = ground arith
byte_at-take (suc n) (suc i) (x ∷ xs) (y ∷ ys) e h =
    byte_at-take n i xs ys (ground arith) (omega arith)

-- A Bluetooth output report of at least 78 bytes is accepted by the DualSense and the DualShock 4
-- parser of its report id once its checksum is written, at the offset that its second byte asks
-- for on the DualSense, and at offset 3 on the DualShock 4.
pub written_report_accepted :
    (report : List ℕ)
    → 78 ≤ length report
    → AreBytes report
    → let sent = write_playstation_crc report output_seed in
      (dualsense_common_output_offset sent ≡ (
        if byte_at report 0 == 0x02
        then some 1
        else if byte_at report 0 == 0x31
        then (if has_flag (byte_at report 1) 0x02 then some 2 else some 3)
        else none))
      × (dualshock4_common_output_offset sent ≡ (
          if byte_at report 0 == 0x05
          then some 1
          else if byte_at report 0 == 0x11
          then some 3
          else none))
unfolding dualsense_common_output_offset dualshock4_common_output_offset
written_report_accepted report h b =
    let sent = write_playstation_crc report output_seed in
    let c = write_playstation_crc_lem report output_seed (omega arith) b (omega arith) in
    let n = length report - 4 in
    ground (
      arith,
      c.0,
      c.1,
      byte_at-take n 0 sent report c.2 (omega arith),
      byte_at-take n 1 sent report c.2 (omega arith),
    )
