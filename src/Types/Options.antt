-- ===== src/Types/Options.antt =====
-- The options that a virtual device is created with, of src/include/libvirtualhid/types.hpp.
use plank_libvirtualhid.Common.{ℕ, ℤ, Bool}
use plank_libvirtualhid.Types.{DeviceProfile, Text}

pub data ClientControllerType : Type 0 where
  unknown xbox playstation nintendo : ClientControllerType

pub record GamepadMetadata : Type 0 where
  pub global_index : ℤ
  pub client_relative_index : ℤ
  pub client_type : ClientControllerType
  pub has_motion_sensors : Bool
  pub has_touchpad : Bool
  pub has_rgb_led : Bool
  pub has_battery : Bool
  pub stable_id : Text

pub record CreateGamepadOptions : Type 0 where
  pub profile : DeviceProfile
  pub metadata : GamepadMetadata

pub record CreateKeyboardOptions : Type 0 where
  pub profile : DeviceProfile
  pub auto_repeat_interval_ms : ℕ
  pub stable_id : Text

pub record CreateMouseOptions : Type 0 where
  pub profile : DeviceProfile
  pub stable_id : Text

pub record CreateTouchscreenOptions : Type 0 where
  pub profile : DeviceProfile
  pub stable_id : Text

pub record CreateTrackpadOptions : Type 0 where
  pub profile : DeviceProfile
  pub stable_id : Text

pub record CreatePenTabletOptions : Type 0 where
  pub profile : DeviceProfile
  pub stable_id : Text
