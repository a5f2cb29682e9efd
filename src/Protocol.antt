-- ===== src/Protocol.antt =====
-- The numbers of src/platform/windows/shared/lvh_windows_protocol.h that the Windows components
-- compare with.
use plank_libvirtualhid.Common.{ℕ}

abbrev pub bus_unknown : ℕ
bus_unknown = 0

abbrev pub bus_usb : ℕ
bus_usb = 1

abbrev pub bus_bluetooth : ℕ
bus_bluetooth = 2

abbrev pub gamepad_generic : ℕ
gamepad_generic = 0

abbrev pub gamepad_xbox_360 : ℕ
gamepad_xbox_360 = 1

abbrev pub gamepad_xbox_one : ℕ
gamepad_xbox_one = 2

abbrev pub gamepad_xbox_series : ℕ
gamepad_xbox_series = 3

abbrev pub gamepad_dualsense : ℕ
gamepad_dualsense = 4

abbrev pub gamepad_switch_pro : ℕ
gamepad_switch_pro = 5

abbrev pub gamepad_dualshock4 : ℕ
gamepad_dualshock4 = 6
