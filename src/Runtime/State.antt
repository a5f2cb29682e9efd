-- ===== src/Runtime/State.antt =====
-- `RuntimeState` and `Runtime` of src/core/runtime.cpp: the creation of devices of six types, the
-- closing of one device by its handle and of all of them. The backend is the abstract class
-- `Backend` of src/core/backend.hpp as a record, with the state behind it passed along.
use plank_libvirtualhid.Common.{
  ℕ, ◌+◌, ◌%◌, ◌^◌, not, Option, none, some, List, [], ◌∷◌, ◌++◌, length, if◌then◌else◌,
}
use plank_libvirtualhid.Types.{OperationStatus, success, is_ok, DeviceProfile}
use plank_libvirtualhid.Types.Options.{
  CreateGamepadOptions, CreateKeyboardOptions, CreateMouseOptions, CreateTouchscreenOptions,
  CreateTrackpadOptions, CreatePenTabletOptions,
}
use plank_libvirtualhid.Runtime.Device.{Device, new_device}
use plank_libvirtualhid.Runtime.Validate.{
  validate_gamepad_options, validate_keyboard_options, validate_mouse_options,
  validate_touchscreen_options, validate_trackpad_options, validate_pen_tablet_options,
}
use plank_libvirtualhid.Runtime.Store.{count_open_devices, close_devices}

-- `Backend…CreationResult`: `none` is a null pointer.
pub record CreationResult (Handle : Type 0) : Type 0 where
  pub status : OperationStatus
  pub device : Option Handle

pub record Backend : Type 1 where
  pub World : Type 0
  pub Handle : Type 0
  pub close : Handle → World → OperationStatus × World
  pub create_gamepad :
      ℕ → CreateGamepadOptions → World → CreationResult Handle × Option DeviceProfile × World
  pub create_keyboard : ℕ → CreateKeyboardOptions → World → CreationResult Handle × World
  pub create_mouse : ℕ → CreateMouseOptions → World → CreationResult Handle × World
  pub create_touchscreen : ℕ → CreateTouchscreenOptions → World → CreationResult Handle × World
  pub create_trackpad : ℕ → CreateTrackpadOptions → World → CreationResult Handle × World
  pub create_pen_tablet : ℕ → CreatePenTabletOptions → World → CreationResult Handle × World

-- What follows the backend's answer: a device that it created joins the list, and its position is
-- the client's handle.
unfoldable pub enlist :
    {Handle Options Last : Type 0}
    → CreationResult Handle
    → ℕ
    → Options
    → Last
    → List (Option (Device Handle Options Last))
    → OperationStatus × Option ℕ × List (Option (Device Handle Options Last))
enlist created id options fresh ds = elim created.device [
  | none ↦ (created.status, none, ds)
  | some handle ↦
      if is_ok created.status
      then (success, some (length ds), ds ++ some (new_device id options (some handle) fresh) ∷ [])
      else (created.status, none, ds)
]

abbrev pub effective : CreateGamepadOptions → Option DeviceProfile → CreateGamepadOptions
effective o none = o
effective o (some profile) = record o { profile = profile }

-- What a device remembers of its last event starts as `fresh`; creation and closing do not read it.
module _ (b : Backend) (Last : Type 0) (fresh : Last) where
  abbrev pub Devices : Type 0 → Type 0
  Devices Options = List (Option (Device b.Handle Options Last))

  pub record RuntimeState : Type 0 where
    pub world : b.World
    pub next_device_id : ℕ
    pub gamepads : Devices CreateGamepadOptions
    pub keyboards : Devices CreateKeyboardOptions
    pub mice : Devices CreateMouseOptions
    pub touchscreens : Devices CreateTouchscreenOptions
    pub trackpads : Devices CreateTrackpadOptions
    pub pen_tablets : Devices CreatePenTabletOptions

  abbrev pub new_runtime : b.World → RuntimeState
  new_runtime w = record {
    world = w;
    next_device_id = 1;
    gamepads = [];
    keyboards = [];
    mice = [];
    touchscreens = [];
    trackpads = [];
    pen_tablets = [];
  }

  -- `next_device_id++` of an `std::uint64_t`.
  abbrev pub next : RuntimeState → ℕ
  next s = (s.next_device_id + 1) % 2 ^ 64

  abbrev pub Created : Type 0
  Created = OperationStatus × Option ℕ × RuntimeState

  unfoldable pub create_gamepad : CreateGamepadOptions → RuntimeState → Created
  create_gamepad o s =
      let v = validate_gamepad_options o in
      let r = b.create_gamepad s.next_device_id o s.world in
      let e = enlist r.0 s.next_device_id (effective o r.1) fresh s.gamepads in
      if not (is_ok v)
      then (v, none, s)
      else (e.0, e.1, record s { next_device_id = next s; world = r.2; gamepads = e.2 })

  unfoldable pub create_keyboard : CreateKeyboardOptions → RuntimeState → Created
  create_keyboard o s =
      let v = validate_keyboard_options o in
      let r = b.create_keyboard s.next_device_id o s.world in
      let e = enlist r.0 s.next_device_id o fresh s.keyboards in
      if not (is_ok v)
      then (v, none, s)
      else (e.0, e.1, record s { next_device_id = next s; world = r.1; keyboards = e.2 })

  unfoldable pub create_mouse : CreateMouseOptions → RuntimeState → Created
  create_mouse o s =
      let v = validate_mouse_options o in
      let r = b.create_mouse s.next_device_id o s.world in
      let e = enlist r.0 s.next_device_id o fresh s.mice in
      if not (is_ok v)
      then (v, none, s)
      else (e.0, e.1, record s { next_device_id = next s; world = r.1; mice = e.2 })

  unfoldable pub create_touchscreen : CreateTouchscreenOptions → RuntimeState → Created
  create_touchscreen o s =
      let v = validate_touchscreen_options o in
      let r = b.create_touchscreen s.next_device_id o s.world in
      let e = enlist r.0 s.next_device_id o fresh s.touchscreens in
      if not (is_ok v)
      then (v, none, s)
      else (e.0, e.1, record s { next_device_id = next s; world = r.1; touchscreens = e.2 })

  unfoldable pub create_trackpad : CreateTrackpadOptions → RuntimeState → Created
  create_trackpad o s =
      let v = validate_trackpad_options o in
      let r = b.create_trackpad s.next_device_id o s.world in
      let e = enlist r.0 s.next_device_id o fresh s.trackpads in
      if not (is_ok v)
      then (v, none, s)
      else (e.0, e.1, record s { next_device_id = next s; world = r.1; trackpads = e.2 })

  unfoldable pub create_pen_tablet : CreatePenTabletOptions → RuntimeState → Created
  create_pen_tablet o s =
      let v = validate_pen_tablet_options o in
      let r = b.create_pen_tablet s.next_device_id o s.world in
      let e = enlist r.0 s.next_device_id o fresh s.pen_tablets in
      if not (is_ok v)
      then (v, none, s)
      else (e.0, e.1, record s { next_device_id = next s; world = r.1; pen_tablets = e.2 })

  unfoldable pub active_device_count : RuntimeState → ℕ
  active_device_count s =
      count_open_devices s.gamepads
      + count_open_devices s.keyboards
      + count_open_devices s.mice
      + count_open_devices s.touchscreens
      + count_open_devices s.trackpads
      + count_open_devices s.pen_tablets

  unfoldable pub close_all : RuntimeState → RuntimeState
  close_all s =
      let g = close_devices b.close s.gamepads s.world in
      let k = close_devices b.close s.keyboards g.1 in
      let m = close_devices b.close s.mice k.1 in
      let t = close_devices b.close s.touchscreens m.1 in
      let p = close_devices b.close s.trackpads t.1 in
      let n = close_devices b.close s.pen_tablets p.1 in
      record {
        world = n.1;
        next_device_id = s.next_device_id;
        gamepads = g.0;
        keyboards = k.0;
        mice = m.0;
        touchscreens = t.0;
        trackpads = p.0;
        pen_tablets = n.0;
      }
