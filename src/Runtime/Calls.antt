-- ===== src/Runtime/Calls.antt =====
-- Histories of calls on `Runtime` of src/core/runtime.cpp and on the handles that it gives out.
use plank_libvirtualhid.Common.{ℕ, ◌+◌, ◌≡◌, List, [], ◌∷◌, arith}
use plank_libvirtualhid.Types.{DeviceType}
use plank_libvirtualhid.Types.Options.{
  CreateGamepadOptions, CreateKeyboardOptions, CreateMouseOptions, CreateTouchscreenOptions,
  CreateTrackpadOptions, CreatePenTabletOptions,
}
use plank_libvirtualhid.Runtime.Store.{
  count_id, close_devices, close_at, destroy_at, count_open-close_devices, count_id-close_devices,
}
use plank_libvirtualhid.Runtime.State.{
  Backend, RuntimeState, create_gamepad, create_keyboard, create_mouse, create_touchscreen,
  create_trackpad, create_pen_tablet, active_device_count, close_all,
}

-- A call on the runtime, or on the handle of a device given by its type and position.
pub data RuntimeCall : Type 0 where
  new_gamepad : CreateGamepadOptions → RuntimeCall
  new_keyboard : CreateKeyboardOptions → RuntimeCall
  new_mouse : CreateMouseOptions → RuntimeCall
  new_touchscreen : CreateTouchscreenOptions → RuntimeCall
  new_trackpad : CreateTrackpadOptions → RuntimeCall
  new_pen_tablet : CreatePenTabletOptions → RuntimeCall
  closes : DeviceType → ℕ → RuntimeCall
  destroys : DeviceType → ℕ → RuntimeCall
  closes_all : RuntimeCall

module _ (b : Backend) (Last : Type 0) (fresh : Last) where
  unfoldable pub close_handle :
      DeviceType → ℕ → RuntimeState b Last fresh → RuntimeState b Last fresh
  close_handle DeviceType.gamepad i s =
      let r = close_at b.close i s.gamepads s.world in record s { gamepads = r.1; world = r.2 }
  close_handle DeviceType.keyboard i s =
      let r = close_at b.close i s.keyboards s.world in record s { keyboards = r.1; world = r.2 }
  close_handle DeviceType.mouse i s =
      let r = close_at b.close i s.mice s.world in record s { mice = r.1; world = r.2 }
  close_handle DeviceType.touchscreen i s =
      let r = close_at b.close i s.touchscreens s.world in
      record s { touchscreens = r.1; world = r.2 }
  close_handle DeviceType.trackpad i s =
      let r = close_at b.close i s.trackpads s.world in record s { trackpads = r.1; world = r.2 }
  close_handle DeviceType.pen_tablet i s =
      let r = close_at b.close i s.pen_tablets s.world in
      record s { pen_tablets = r.1; world = r.2 }

  unfoldable pub destroy_handle :
      DeviceType → ℕ → RuntimeState b Last fresh → RuntimeState b Last fresh
  destroy_handle DeviceType.gamepad i s =
      let r = destroy_at b.close i s.gamepads s.world in record s { gamepads = r.0; world = r.1 }
  destroy_handle DeviceType.keyboard i s =
      let r = destroy_at b.close i s.keyboards s.world in record s { keyboards = r.0; world = r.1 }
  destroy_handle DeviceType.mouse i s =
      let r = destroy_at b.close i s.mice s.world in record s { mice = r.0; world = r.1 }
  destroy_handle DeviceType.touchscreen i s =
      let r = destroy_at b.close i s.touchscreens s.world in
      record s { touchscreens = r.0; world = r.1 }
  destroy_handle DeviceType.trackpad i s =
      let r = destroy_at b.close i s.trackpads s.world in record s { trackpads = r.0; world = r.1 }
  destroy_handle DeviceType.pen_tablet i s =
      let r = destroy_at b.close i s.pen_tablets s.world in
      record s { pen_tablets = r.0; world = r.1 }

  unfoldable pub step : RuntimeCall → RuntimeState b Last fresh → RuntimeState b Last fresh
  step (new_gamepad o) s = (create_gamepad b Last fresh o s).2
  step (new_keyboard o) s = (create_keyboard b Last fresh o s).2
  step (new_mouse o) s = (create_mouse b Last fresh o s).2
  step (new_touchscreen o) s = (create_touchscreen b Last fresh o s).2
  step (new_trackpad o) s = (create_trackpad b Last fresh o s).2
  step (new_pen_tablet o) s = (create_pen_tablet b Last fresh o s).2
  step (closes kind i) s = close_handle kind i s
  step (destroys kind i) s = destroy_handle kind i s
  step closes_all s = close_all b Last fresh s

  unfoldable pub run : List RuntimeCall → RuntimeState b Last fresh → RuntimeState b Last fresh
  run [] s = s
  run (c ∷ cs) s = run cs (step c s)

  -- The devices of the runtime with this id, over all six lists.
  unfoldable pub devices_with_id : ℕ → RuntimeState b Last fresh → ℕ
  devices_with_id k s =
      count_id k s.gamepads
      + count_id k s.keyboards
      + count_id k s.mice
      + count_id k s.touchscreens
      + count_id k s.trackpads
      + count_id k s.pen_tablets

  -- After all devices of the runtime are closed none is active, whatever the backend answers, and
  -- no device is created or removed by it.
  pub active_device_count-close_all :
      (s : RuntimeState b Last fresh)
      → (active_device_count b Last fresh (close_all b Last fresh s) ≡ 0)
        × ((id : ℕ) → devices_with_id id (close_all b Last fresh s) ≡ devices_with_id id s)
  unfolding active_device_count close_all devices_with_id
  active_device_count-close_all s =
      let g = close_devices b.close s.gamepads s.world in
      let k = close_devices b.close s.keyboards g.1 in
      let m = close_devices b.close s.mice k.1 in
      let t = close_devices b.close s.touchscreens m.1 in
      let p = close_devices b.close s.trackpads t.1 in
      (
        omega (
          arith,
          count_open-close_devices b.close s.gamepads s.world,
          count_open-close_devices b.close s.keyboards g.1,
          count_open-close_devices b.close s.mice k.1,
          count_open-close_devices b.close s.touchscreens m.1,
          count_open-close_devices b.close s.trackpads t.1,
          count_open-close_devices b.close s.pen_tablets p.1,
        ),
        λ id. omega (
          arith,
          count_id-close_devices b.close id s.gamepads s.world,
          count_id-close_devices b.close id s.keyboards g.1,
          count_id-close_devices b.close id s.mice k.1,
          count_id-close_devices b.close id s.touchscreens m.1,
          count_id-close_devices b.close id s.trackpads t.1,
          count_id-close_devices b.close id s.pen_tablets p.1,
        ),
      )
