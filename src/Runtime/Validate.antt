-- ===== src/Runtime/Validate.antt =====
-- The checks that src/core/runtime.cpp makes on the options of a new device.
use plank_libvirtualhid.Common.{Bool, true, false, not, is_empty, ◌==◌, if◌then◌else◌}
use plank_libvirtualhid.Types.{
  OperationStatus, ErrorCode, success, failure, DeviceType, DeviceProfile,
}
use plank_libvirtualhid.Types.Options.{
  CreateGamepadOptions, CreateKeyboardOptions, CreateMouseOptions, CreateTouchscreenOptions,
  CreateTrackpadOptions, CreatePenTabletOptions,
}

abbrev pub same_type : DeviceType → DeviceType → Bool
same_type DeviceType.gamepad DeviceType.gamepad = true
same_type DeviceType.keyboard DeviceType.keyboard = true
same_type DeviceType.mouse DeviceType.mouse = true
same_type DeviceType.touchscreen DeviceType.touchscreen = true
same_type DeviceType.trackpad DeviceType.trackpad = true
same_type DeviceType.pen_tablet DeviceType.pen_tablet = true
same_type _ _ = false

-- The name, and what follows it in the gamepad's check.
abbrev named : DeviceProfile → OperationStatus → OperationStatus
named profile rest =
    if is_empty profile.name
    then failure ErrorCode.invalid_argument "device profile name must not be empty"
    else rest

unfoldable pub validate_gamepad_options : CreateGamepadOptions → OperationStatus
validate_gamepad_options o =
    if not (same_type o.profile.device_type DeviceType.gamepad)
    then failure ErrorCode.unsupported_profile "device profile is not a gamepad"
    else named o.profile (
        if is_empty o.profile.report_descriptor
        then failure ErrorCode.invalid_argument "device profile report descriptor must not be empty"
        else if o.profile.input_report_size == 0
        then failure ErrorCode.invalid_argument "device profile input report size must not be zero"
        else success)

unfoldable pub validate_keyboard_options : CreateKeyboardOptions → OperationStatus
validate_keyboard_options o =
    if not (same_type o.profile.device_type DeviceType.keyboard)
    then failure ErrorCode.unsupported_profile "device profile is not a keyboard"
    else named o.profile success

unfoldable pub validate_mouse_options : CreateMouseOptions → OperationStatus
validate_mouse_options o =
    if not (same_type o.profile.device_type DeviceType.mouse)
    then failure ErrorCode.unsupported_profile "device profile is not a mouse"
    else named o.profile success

unfoldable pub validate_touchscreen_options : CreateTouchscreenOptions → OperationStatus
validate_touchscreen_options o =
    if not (same_type o.profile.device_type DeviceType.touchscreen)
    then failure ErrorCode.unsupported_profile "device profile is not a touchscreen"
    else named o.profile success

unfoldable pub validate_trackpad_options : CreateTrackpadOptions → OperationStatus
validate_trackpad_options o =
    if not (same_type o.profile.device_type DeviceType.trackpad)
    then failure ErrorCode.unsupported_profile "device profile is not a trackpad"
    else named o.profile success

unfoldable pub validate_pen_tablet_options : CreatePenTabletOptions → OperationStatus
validate_pen_tablet_options o =
    if not (same_type o.profile.device_type DeviceType.pen_tablet)
    then failure ErrorCode.unsupported_profile "device profile is not a pen tablet"
    else named o.profile success
