-- ===== src/SwitchPro.antt =====
-- src/platform/windows/shared/switch_pro_protocol.hpp: the replies of a virtual Switch Pro
-- controller to the output reports of a host.
pub mod Spi
mod Tests
use plank_libvirtualhid.Common.{
  ℕ, ◌+◌, ◌-◌, ◌≡◌, Bool, true, false, ◌||◌, Option, none, some, List, [], ◌∷◌, length, get_or, set,
  take, drop, replicate, is_empty, min, max, ltb, leb, ◌==◌, ◌!=◌, if◌then◌else◌,
}
use plank_libvirtualhid.Report.Bytes.{read_u32}

-- `switch_pro_report_size`
abbrev pub report_size : ℕ
report_size = 64

abbrev pub controller_mac : List ℕ
controller_mac = 0x02 ∷ 0 ∷ 0 ∷ 0 ∷ 0 ∷ 0x01 ∷ []

abbrev pub factory_stick_calibration : List ℕ
factory_stick_calibration =
    0xFF ∷ 0xF7 ∷ 0x7F ∷ 0x00 ∷ 0x08 ∷ 0x80 ∷ 0xFF ∷ 0xF7 ∷ 0x7F ∷ 0x00 ∷ 0x08 ∷ 0x80 ∷ 0xFF ∷ 0xF7
    ∷ 0x7F ∷ 0xFF ∷ 0xF7 ∷ 0x7F ∷ []

abbrev pub factory_imu_calibration : List ℕ
factory_imu_calibration =
    0x00 ∷ 0x00 ∷ 0x00 ∷ 0x00 ∷ 0x00 ∷ 0x00 ∷ 0x00 ∷ 0x40 ∷ 0x00 ∷ 0x40 ∷ 0x00 ∷ 0x40 ∷ 0x00 ∷ 0x00
    ∷ 0x00 ∷ 0x00 ∷ 0x00 ∷ 0x00 ∷ 0x3B ∷ 0x34 ∷ 0x3B ∷ 0x34 ∷ 0x3B ∷ 0x34 ∷ []

-- `std::copy` and `std::copy_n` to a place in a report.
unfoldable pub copy_to : List ℕ → ℕ → List ℕ → List ℕ
copy_to report offset [] = report
copy_to report offset (b ∷ bs) = copy_to (set report offset b) (offset + 1) bs

-- The end addresses are computed in 64 bits, so no sum of them wraps.
unfoldable pub copy_spi_data : List ℕ → ℕ → ℕ → ℕ → List ℕ → List ℕ
copy_spi_data reply requested_address requested_size data_address bytes =
    let requested_end = requested_address + requested_size in
    let data_end = data_address + length bytes in
    let copy_begin = max requested_address data_address in
    let copy_end = min requested_end data_end in
    let destination_offset = 20 + (copy_begin - requested_address) in
    if leb copy_end copy_begin
    then reply
    else if leb (length reply) destination_offset
    then reply
    else copy_to reply destination_offset (
        take (min (copy_end - copy_begin) (length reply - destination_offset))
          (drop (copy_begin - data_address) bytes))

unfoldable pub set_neutral_controller_state : List ℕ → ℕ → List ℕ
set_neutral_controller_state reply timer =
    copy_to (copy_to reply 1 (timer ∷ 0x81 ∷ [])) 6 (0x00 ∷ 0x08 ∷ 0x80 ∷ 0x00 ∷ 0x08 ∷ 0x80 ∷ [])

-- The two addresses of the factory data.
abbrev pub stick_address : ℕ
stick_address = 0x603D

abbrev pub imu_address : ℕ
imu_address = 0x6020

unfoldable pub set_spi_reply : List ℕ → List ℕ → List ℕ
set_spi_reply reply output_report =
    let address = read_u32 output_report 11 in
    let requested_size = get_or output_report 15 0 in
    let echoed = copy_to reply 15 (take 5 (drop 11 output_report)) in
    let with_sticks =
      copy_spi_data echoed address requested_size stick_address factory_stick_calibration in
    copy_spi_data with_sticks address requested_size imu_address factory_imu_calibration

unfoldable pub set_device_info_reply : List ℕ → List ℕ
set_device_info_reply reply =
    copy_to (copy_to (copy_to reply 15 (0x04 ∷ 0x33 ∷ 0x03 ∷ 0x02 ∷ [])) 19 controller_mac) 25
      (0x01 ∷ 0x01 ∷ [])

abbrev pub blank : List ℕ
blank = replicate report_size 0

unfoldable pub usb_reply : List ℕ → Option (List ℕ)
usb_reply output_report =
    if ltb (length output_report) 2 || get_or output_report 1 0 == 0x04
    then none
    else let answered = copy_to blank 0 (0x81 ∷ get_or output_report 1 0 ∷ []) in
      if get_or output_report 1 0 == 0x01
      then some (copy_to (set answered 3 0x03) 4 (0x01 ∷ 0 ∷ 0 ∷ 0 ∷ 0 ∷ 0x02 ∷ []))
      else some answered

-- The reply to a subcommand before its own data.
unfoldable pub acknowledged : List ℕ → ℕ → List ℕ
acknowledged output_report subcommand =
    copy_to (set_neutral_controller_state (set blank 0 0x21) (get_or output_report 1 0)) 13 (
      (if subcommand == 0x10 then 0x90 else if subcommand == 0x02 then 0x82 else 0x80)
      ∷ subcommand
      ∷ [])

unfoldable pub subcommand_reply : List ℕ → ℕ → Option (List ℕ)
subcommand_reply output_report subcommand =
    if subcommand == 0x10
    then if ltb (length output_report) 16
      then none
      else some (set_spi_reply (acknowledged output_report subcommand) output_report)
    else if subcommand == 0x02
    then some (set_device_info_reply (acknowledged output_report subcommand))
    else some (acknowledged output_report subcommand)

unfoldable pub make_switch_pro_reply : List ℕ → Option (List ℕ)
make_switch_pro_reply output_report =
    if is_empty output_report
    then none
    else if get_or output_report 0 0 == 0x80
    then usb_reply output_report
    else if get_or output_report 0 0 != 0x01 || ltb (length output_report) 11
    then none
    else subcommand_reply output_report (get_or output_report 10 0)
