-- ===== src/Runtime/Tests.antt =====
-- The runtime's theorems on a backend that counts its calls, and runs of the runtime.
use plank_libvirtualhid.Common.{
  ℕ, negsuc, ◌+◌, ◌==◌, ◌≤◌, ◌≡◌, refl, true, false, none, some, List, [], ◌∷◌, if◌then◌else◌, ltb,
  arith,
}
use plank_libvirtualhid.Types.{
  OperationStatus, ErrorCode, success, failure, DeviceType, BusType, GamepadProfileKind,
  DeviceProfile,
}
use plank_libvirtualhid.Types.Options.{
  CreateGamepadOptions, CreateMouseOptions, ClientControllerType,
}
use plank_libvirtualhid.Runtime.Device.{Device, new_device, on_backend, close}
use plank_libvirtualhid.Runtime.History.{Call, event, closing, calls}
use plank_libvirtualhid.Runtime.Counting.{Remembers, accepted, calls-Remembers}
use plank_libvirtualhid.Runtime.Validate.{validate_gamepad_options, validate_mouse_options}
use plank_libvirtualhid.Runtime.Store.{count_open_devices, close_at, close_slot}
use plank_libvirtualhid.Runtime.State.{
  CreationResult, Backend, RuntimeState, new_runtime, create_gamepad, create_mouse, enlist,
  active_device_count, close_all,
}
use plank_libvirtualhid.Runtime.Calls.{
  RuntimeCall, new_gamepad, new_mouse, closes, step, run, close_handle, devices_with_id,
  active_device_count-close_all,
}
use plank_libvirtualhid.Runtime.Ids.{run-new_runtime}

-- Every call is counted; the third and every later creation fails.
abbrev made : ℕ → ℕ → CreationResult ℕ × ℕ
made id w = (
  if ltb w 2
      then record { status = success; device = some id }
      else record { status = failure ErrorCode.backend_failure "full"; device = none },
  w + 1,
)

abbrev counting_backend : Backend
counting_backend = record {
  World = ℕ;
  Handle = ℕ;
  close = λ handle w. (success, w + 1);
  create_gamepad = λ id o w. ((made id w).0, none, (made id w).1);
  create_keyboard = λ id o w. made id w;
  create_mouse = λ id o w. made id w;
  create_touchscreen = λ id o w. made id w;
  create_trackpad = λ id o w. made id w;
  create_pen_tablet = λ id o w. made id w;
}

abbrev profile : DeviceType → DeviceProfile
profile kind = record {
  device_type = kind;
  gamepad_kind = GamepadProfileKind.generic;
  bus_type = BusType.usb;
  vendor_id = 1;
  product_id = 2;
  version = 1;
  report_id = 1;
  input_report_size = 9;
  output_report_size = 0;
  name = 80 ∷ [];
  manufacturer = [];
  capabilities = record {
    supports_rumble = true;
    supports_motion = false;
    supports_touchpad = false;
    supports_rgb_led = false;
    supports_battery = false;
    supports_adaptive_triggers = false;
  };
  report_descriptor = 5 ∷ 1 ∷ [];
}

abbrev pad : CreateGamepadOptions
pad = record {
  profile = profile DeviceType.gamepad;
  metadata = record {
    global_index = negsuc 0;
    client_relative_index = negsuc 0;
    client_type = ClientControllerType.unknown;
    has_motion_sensors = false;
    has_touchpad = false;
    has_rgb_led = false;
    has_battery = false;
    stable_id = [];
  };
}

abbrev rodent : CreateMouseOptions
rodent = record { profile = profile DeviceType.mouse; stable_id = [] }

abbrev wrong_rodent : CreateMouseOptions
wrong_rodent = record { profile = profile DeviceType.keyboard; stable_id = [] }

-- Two devices are made, an invalid one is refused before the backend is asked, and a third fails
-- at the backend, which takes an id. One is closed.
abbrev history : List RuntimeCall
history =
    new_gamepad pad
    ∷ new_mouse wrong_rodent
    ∷ new_mouse rodent
    ∷ new_gamepad pad
    ∷ closes DeviceType.mouse 0
    ∷ []

abbrev after : RuntimeState counting_backend ℕ 0
after = run counting_backend ℕ 0 history (new_runtime counting_backend ℕ 0 0)

counts_of_a_run :
    (active_device_count counting_backend ℕ 0 after ≡ 1)
    × (after.next_device_id ≡ 4)
    × (after.world ≡ 4)
unfolding run step active_device_count create_gamepad create_mouse enlist validate_gamepad_options
    validate_mouse_options count_open_devices close_handle close_at close_slot close on_backend
counts_of_a_run = (refl, refl, refl)

run-new_runtime_example : devices_with_id counting_backend ℕ 0 2 after ≤ 1
run-new_runtime_example = run-new_runtime counting_backend ℕ 0 0 history 2 (omega arith)

active_device_count-close_all_example :
    (active_device_count counting_backend ℕ 0 (close_all counting_backend ℕ 0 after) ≡ 0)
    × ((id : ℕ)
        → devices_with_id counting_backend ℕ 0 id (close_all counting_backend ℕ 0 after)
          ≡ devices_with_id counting_backend ℕ 0 id after)
active_device_count-close_all_example = active_device_count-close_all counting_backend ℕ 0 after

-- One device of this backend, whose events are numbers that must be below 10.
abbrev device : Device ℕ ℕ ℕ
device = new_device 7 0 (some 7) 0

abbrev backend_close : ℕ → ℕ → OperationStatus × ℕ
backend_close handle w = (success, w + 1)

abbrev send : ℕ → Call ℕ ℕ ℕ
send n =
    event (if n == 6 then failure ErrorCode.invalid_argument "odd" else success)
      (λ handle w. (if ltb n 10 then success else failure ErrorCode.backend_failure "no", w + 1))
      (λ last. n)

abbrev sent : List (Call ℕ ℕ ℕ)
sent = send 3 ∷ send 12 ∷ send 5 ∷ closing ∷ send 6 ∷ []

calls-Remembers_example :
    let r = calls "closed" backend_close sent device 0 in Remembers (accepted sent r.0) device r.1
calls-Remembers_example = calls-Remembers "closed" backend_close sent device 0 (omega arith)
