-- ===== src/PlayStation.antt =====
-- src/platform/windows/shared/playstation_feature_protocol.hpp: the feature reports of virtual
-- DualShock 4 and DualSense gamepads. The checksum is that of src/core/report.cpp.
pub mod FeatureReports
pub mod Mac
mod Tests
use plank_libvirtualhid.Common.{
  ℕ, zero, suc, ◌+◌, ◌-◌, ◌*◌, ◌/◌, ◌%◌, ◌^◌, Bool, true, false, ◌&&◌, ◌||◌, Option, none, some,
  List, [], ◌∷◌, ◌++◌, length, take, ltb, leb, ◌==◌, if◌then◌else◌, Text,
}
use plank_libvirtualhid.Protocol.{bus_bluetooth, gamepad_dualshock4, gamepad_dualsense}
use plank_libvirtualhid.Report.Bytes.{write_u32}
use plank_libvirtualhid.Report.Crc.{crc32}
use plank_libvirtualhid.SwitchPro.{copy_to}
use plank_libvirtualhid.PlayStation.FeatureReports.{
  dualshock4_usb_calibration_report, dualshock4_bluetooth_calibration_report,
  dualshock4_pairing_report, dualshock4_firmware_report, playstation_feature_crc_seed,
  dualsense_calibration_report, dualsense_pairing_report, dualsense_firmware_report,
  dualshock4_usb_calibration_info, dualshock4_bluetooth_calibration_info, dualshock4_firmware_info,
  dualshock4_pairing_info, dualsense_calibration_info, dualsense_firmware_info,
  dualsense_pairing_info,
}

unfoldable pub hex_value : ℕ → Option ℕ
hex_value c =
    if leb 48 c && leb c 57
    then some (c - 48)
    else if leb 97 c && leb c 102
    then some (c - 87)
    else if leb 65 c && leb c 70
    then some (c - 55)
    else none

-- `std::from_chars` in base 16 on two characters, both of which it has to take.
unfoldable pub hex_byte : Option ℕ → Option ℕ → Option ℕ
hex_byte none low = none
hex_byte (some high) none = none
hex_byte (some high) (some low) = some (high * 16 + low)

unfoldable pub prepend : Option ℕ → Option (List ℕ) → Option (List ℕ)
prepend none mac = none
prepend (some b) none = none
prepend (some b) (some mac) = some (b ∷ mac)

-- The loop of `parse_mac_address`, by the number of bytes that are still to come.
unfoldable pub parse_bytes : ℕ → Text → Option (List ℕ)
parse_bytes zero text = some []
parse_bytes (suc n) [] = none
parse_bytes (suc n) (c ∷ []) = none
parse_bytes (suc zero) (c ∷ d ∷ text) = prepend (hex_byte (hex_value c) (hex_value d)) (some [])
parse_bytes (suc (suc n)) (c ∷ d ∷ []) = none
parse_bytes (suc (suc n)) (c ∷ d ∷ e ∷ text) =
    let rest = parse_bytes (suc n) text in
    if e == b':' then prepend (hex_byte (hex_value c) (hex_value d)) rest else none

unfoldable pub parse_mac_address : Text → Option (List ℕ)
parse_mac_address text = parse_bytes 6 text

unfoldable pub generated_mac_address : ℕ → List ℕ
generated_mac_address client_device_id =
    0x02
    ∷ 0x00
    ∷ (client_device_id / 2 ^ 24 % 256)
    ∷ (client_device_id / 2 ^ 16 % 256)
    ∷ (client_device_id / 2 ^ 8 % 256)
    ∷ (client_device_id % 256)
    ∷ []

-- What a feature report needs of the request; `stable_id` is its text, cut to its size.
pub record FeatureRequest : Type 0 where
  pub gamepad_kind : ℕ
  pub bus_type : ℕ
  pub client_device_id : ℕ
  pub stable_id : Text

unfoldable pub mac_or_generated : Option (List ℕ) → ℕ → List ℕ
mac_or_generated none client_device_id = generated_mac_address client_device_id
mac_or_generated (some mac) client_device_id = mac

unfoldable pub request_mac_address : FeatureRequest → List ℕ
request_mac_address request =
    mac_or_generated (parse_mac_address request.stable_id) request.client_device_id

unfoldable pub reversed : List ℕ → List ℕ → List ℕ
reversed [] done = done
reversed (b ∷ bs) done = reversed bs (b ∷ done)

unfoldable pub set_pairing_mac : List ℕ → List ℕ → List ℕ
set_pairing_mac report mac = copy_to report 1 (reversed mac [])

unfoldable pub set_bluetooth_crc : List ℕ → List ℕ
set_bluetooth_crc report =
    if ltb (length report) 4
    then report
    else write_u32 report (length report - 4)
        (crc32 (take (length report - 4) report) (crc32 (playstation_feature_crc_seed ∷ []) 0))

unfoldable pub dualshock4_report : ℕ → List ℕ → ℕ → Option (List ℕ)
dualshock4_report bus_type mac number =
    if number == dualshock4_usb_calibration_report
    then some dualshock4_usb_calibration_info
    else if number == dualshock4_bluetooth_calibration_report
    then if bus_type == bus_bluetooth then some dualshock4_bluetooth_calibration_info else none
    else if number == dualshock4_pairing_report
    then some (set_pairing_mac dualshock4_pairing_info mac)
    else if number == dualshock4_firmware_report
    then some dualshock4_firmware_info
    else none

unfoldable pub dualsense_report : List ℕ → ℕ → Option (List ℕ)
dualsense_report mac number =
    if number == dualsense_calibration_report
    then some dualsense_calibration_info
    else if number == dualsense_pairing_report
    then some (set_pairing_mac dualsense_pairing_info mac)
    else if number == dualsense_firmware_report
    then some dualsense_firmware_info
    else none

unfoldable pub for_bus : ℕ → Option (List ℕ) → Option (List ℕ)
for_bus bus_type none = none
for_bus bus_type (some report) =
    if bus_type == bus_bluetooth then some (set_bluetooth_crc report) else some report

unfoldable pub report_of : ℕ → ℕ → List ℕ → ℕ → Option (List ℕ)
report_of gamepad_kind bus_type mac number =
    if gamepad_kind == gamepad_dualshock4
    then for_bus bus_type (dualshock4_report bus_type mac number)
    else if gamepad_kind == gamepad_dualsense
    then for_bus bus_type (dualsense_report mac number)
    else none

unfoldable pub make_playstation_feature_report : FeatureRequest → ℕ → Option (List ℕ)
make_playstation_feature_report request number =
    report_of request.gamepad_kind request.bus_type (request_mac_address request) number
