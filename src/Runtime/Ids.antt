-- ===== src/Runtime/Ids.antt =====
-- The ids that `Runtime` of src/core/runtime.cpp gives to its devices, over histories of calls.
use plank_libvirtualhid.Common.{
  ℕ, zero, suc, ◌+◌, ◌-◌, ◌*◌, ◌^◌, ◌≤◌, ◌<◌, ◌≡◌, refl, Bool, true, false, not, Option, some, List,
  [], ◌∷◌, length, ◌==◌, if◌then◌else◌, arith, inl, inr, Option-cases,
}
use plank_libvirtualhid.Types.{is_ok, DeviceType}
use plank_libvirtualhid.Types.Options.{
  CreateGamepadOptions, CreateKeyboardOptions, CreateMouseOptions, CreateTouchscreenOptions,
  CreateTrackpadOptions, CreatePenTabletOptions,
}
use plank_libvirtualhid.Runtime.Device.{Device, new_device}
use plank_libvirtualhid.Runtime.Validate.{
  validate_gamepad_options, validate_keyboard_options, validate_mouse_options,
  validate_touchscreen_options, validate_trackpad_options, validate_pen_tablet_options,
}
use plank_libvirtualhid.Runtime.Store.{
  count_id, close_devices, count_id-close_devices, count_id-close_at, count_id-destroy_at,
  count_id-append,
}
use plank_libvirtualhid.Runtime.State.{
  CreationResult, Backend, enlist, RuntimeState, new_runtime, create_gamepad, create_keyboard,
  create_mouse, create_touchscreen, create_trackpad, create_pen_tablet, close_all, Created, next,
  effective,
}
use plank_libvirtualhid.Runtime.Calls.{
  RuntimeCall, new_gamepad, new_keyboard, new_mouse, new_touchscreen, new_trackpad, new_pen_tablet,
  closes, destroys, closes_all, close_handle, destroy_handle, step, run, devices_with_id,
}

-- One if the ids agree.
abbrev is_id : ℕ → ℕ → ℕ
is_id id k = if id == k then 1 else 0

times_le : (d x : ℕ) → d ≤ 1 → x ≤ 1 → (d * x ≤ d) × (d * x ≤ x)
times_le zero x h k = (omega arith, omega arith)
times_le (suc zero) x h k = (omega arith, omega arith)
times_le (suc (suc d)) x h k = absurd (omega arith)

enlist-count :
    {Handle Options Last : Type 0}
    → (k id : ℕ) (c : CreationResult Handle) (o : Options) (fresh : Last)
    → (ds : List (Option (Device Handle Options Last)))
    → count_id k (enlist c id o fresh ds).2 ≤ count_id k ds + is_id id k
unfolding enlist
enlist-count k id c o fresh ds = elim (Option-cases c.device) [
  | inl e ↦ rw e (omega arith)
  | inr (handle, e) ↦
      rw e (ground (arith, count_id-append k ds (new_device id o (some handle) fresh)))
]

module _ (b : Backend) (Last : Type 0) (fresh : Last) where
  abbrev State : Type 0
  State = RuntimeState b Last fresh

  abbrev Made : Type 0
  Made = Created b Last fresh

  abbrev next_id : State → ℕ
  next_id = next b Last fresh

  abbrev with_id : ℕ → State → ℕ
  with_id = devices_with_id b Last fresh

  -- A step gives out the next id at most once, and then moves on.
  record IsGrowth (s t : State) : Type 0 where
    least : s.next_device_id ≤ t.next_device_id
    most : t.next_device_id ≤ s.next_device_id + 1
    counts :
        (k : ℕ)
        → with_id k t
          ≤ with_id k s + (t.next_device_id - s.next_device_id) * is_id s.next_device_id k

  IsGrowth-same :
      (s t : State)
      → t.next_device_id ≡ s.next_device_id
      → ((k : ℕ) → with_id k t ≤ with_id k s)
      → IsGrowth s t
  IsGrowth-same s t e c = record {
    least = omega (arith, e);
    most = omega (arith, e);
    counts = λ k.
        let none_new : t.next_device_id - s.next_device_id ≡ 0 = omega (arith, e) in
        rw none_new (omega (arith, c k));
  }

  IsGrowth-next :
      (s t : State)
      → s.next_device_id + 1 < 2 ^ 64
      → t.next_device_id ≡ next_id s
      → ((k : ℕ) → with_id k t ≤ with_id k s + is_id s.next_device_id k)
      → IsGrowth s t
  IsGrowth-next s t h e c = record {
    least = omega (arith, e);
    most = omega (arith, e);
    counts = λ k.
        let one_new : t.next_device_id - s.next_device_id ≡ 1 = omega (arith, e) in
        rw one_new (omega (arith, c k));
  }

  IsGrowth-if :
      (s : State) (test : Bool) (x y : Made)
      → IsGrowth s x.2
      → IsGrowth s y.2
      → IsGrowth s (if test then x else y).2
  IsGrowth-if s true x y p q = p
  IsGrowth-if s false x y p q = q

  IsGrowth-self : (s : State) → IsGrowth s s
  IsGrowth-self s = IsGrowth-same s s refl (λ k. omega arith)

  create_gamepad-IsGrowth :
      (o : CreateGamepadOptions) (s : State)
      → s.next_device_id + 1 < 2 ^ 64
      → IsGrowth s (create_gamepad b Last fresh o s).2
  unfolding create_gamepad devices_with_id
  create_gamepad-IsGrowth o s h =
      let r = b.create_gamepad s.next_device_id o s.world in
      IsGrowth-if s (not (is_ok (validate_gamepad_options o))) _ _ (IsGrowth-self s) (
        IsGrowth-next s _ h refl (λ k.
          omega (arith, enlist-count k s.next_device_id r.0 (effective o r.1) fresh s.gamepads)))

  create_keyboard-IsGrowth :
      (o : CreateKeyboardOptions) (s : State)
      → s.next_device_id + 1 < 2 ^ 64
      → IsGrowth s (create_keyboard b Last fresh o s).2
  unfolding create_keyboard devices_with_id
  create_keyboard-IsGrowth o s h =
      let r = b.create_keyboard s.next_device_id o s.world in
      IsGrowth-if s (not (is_ok (validate_keyboard_options o))) _ _ (IsGrowth-self s) (
        IsGrowth-next s _ h refl
          (λ k. omega (arith, enlist-count k s.next_device_id r.0 o fresh s.keyboards)))

  create_mouse-IsGrowth :
      (o : CreateMouseOptions) (s : State)
      → s.next_device_id + 1 < 2 ^ 64
      → IsGrowth s (create_mouse b Last fresh o s).2
  unfolding create_mouse devices_with_id
  create_mouse-IsGrowth o s h =
      let r = b.create_mouse s.next_device_id o s.world in
      IsGrowth-if s (not (is_ok (validate_mouse_options o))) _ _ (IsGrowth-self s) (
        IsGrowth-next s _ h refl
          (λ k. omega (arith, enlist-count k s.next_device_id r.0 o fresh s.mice)))

  create_touchscreen-IsGrowth :
      (o : CreateTouchscreenOptions) (s : State)
      → s.next_device_id + 1 < 2 ^ 64
      → IsGrowth s (create_touchscreen b Last fresh o s).2
  unfolding create_touchscreen devices_with_id
  create_touchscreen-IsGrowth o s h =
      let r = b.create_touchscreen s.next_device_id o s.world in
      IsGrowth-if s (not (is_ok (validate_touchscreen_options o))) _ _ (IsGrowth-self s) (
        IsGrowth-next s _ h refl
          (λ k. omega (arith, enlist-count k s.next_device_id r.0 o fresh s.touchscreens)))

  create_trackpad-IsGrowth :
      (o : CreateTrackpadOptions) (s : State)
      → s.next_device_id + 1 < 2 ^ 64
      → IsGrowth s (create_trackpad b Last fresh o s).2
  unfolding create_trackpad devices_with_id
  create_trackpad-IsGrowth o s h =
      let r = b.create_trackpad s.next_device_id o s.world in
      IsGrowth-if s (not (is_ok (validate_trackpad_options o))) _ _ (IsGrowth-self s) (
        IsGrowth-next s _ h refl
          (λ k. omega (arith, enlist-count k s.next_device_id r.0 o fresh s.trackpads)))

  create_pen_tablet-IsGrowth :
      (o : CreatePenTabletOptions) (s : State)
      → s.next_device_id + 1 < 2 ^ 64
      → IsGrowth s (create_pen_tablet b Last fresh o s).2
  unfolding create_pen_tablet devices_with_id
  create_pen_tablet-IsGrowth o s h =
      let r = b.create_pen_tablet s.next_device_id o s.world in
      IsGrowth-if s (not (is_ok (validate_pen_tablet_options o))) _ _ (IsGrowth-self s) (
        IsGrowth-next s _ h refl
          (λ k. omega (arith, enlist-count k s.next_device_id r.0 o fresh s.pen_tablets)))

  close_handle-IsGrowth :
      (kind : DeviceType) (i : ℕ) (s : State) → IsGrowth s (close_handle b Last fresh kind i s)
  unfolding close_handle devices_with_id
  close_handle-IsGrowth DeviceType.gamepad i s =
      IsGrowth-same s _ refl (λ k. omega (arith, count_id-close_at b.close k i s.gamepads s.world))
  close_handle-IsGrowth DeviceType.keyboard i s =
      IsGrowth-same s _ refl (λ k. omega (arith, count_id-close_at b.close k i s.keyboards s.world))
  close_handle-IsGrowth DeviceType.mouse i s =
      IsGrowth-same s _ refl (λ k. omega (arith, count_id-close_at b.close k i s.mice s.world))
  close_handle-IsGrowth DeviceType.touchscreen i s =
      IsGrowth-same s _ refl
        (λ k. omega (arith, count_id-close_at b.close k i s.touchscreens s.world))
  close_handle-IsGrowth DeviceType.trackpad i s =
      IsGrowth-same s _ refl (λ k. omega (arith, count_id-close_at b.close k i s.trackpads s.world))
  close_handle-IsGrowth DeviceType.pen_tablet i s =
      IsGrowth-same s _ refl
        (λ k. omega (arith, count_id-close_at b.close k i s.pen_tablets s.world))

  destroy_handle-IsGrowth :
      (kind : DeviceType) (i : ℕ) (s : State) → IsGrowth s (destroy_handle b Last fresh kind i s)
  unfolding destroy_handle devices_with_id
  destroy_handle-IsGrowth DeviceType.gamepad i s =
      IsGrowth-same s _ refl
        (λ k. omega (arith, count_id-destroy_at b.close k i s.gamepads s.world))
  destroy_handle-IsGrowth DeviceType.keyboard i s =
      IsGrowth-same s _ refl
        (λ k. omega (arith, count_id-destroy_at b.close k i s.keyboards s.world))
  destroy_handle-IsGrowth DeviceType.mouse i s =
      IsGrowth-same s _ refl (λ k. omega (arith, count_id-destroy_at b.close k i s.mice s.world))
  destroy_handle-IsGrowth DeviceType.touchscreen i s =
      IsGrowth-same s _ refl
        (λ k. omega (arith, count_id-destroy_at b.close k i s.touchscreens s.world))
  destroy_handle-IsGrowth DeviceType.trackpad i s =
      IsGrowth-same s _ refl
        (λ k. omega (arith, count_id-destroy_at b.close k i s.trackpads s.world))
  destroy_handle-IsGrowth DeviceType.pen_tablet i s =
      IsGrowth-same s _ refl
        (λ k. omega (arith, count_id-destroy_at b.close k i s.pen_tablets s.world))

  close_all-IsGrowth : (s : State) → IsGrowth s (close_all b Last fresh s)
  unfolding close_all devices_with_id
  close_all-IsGrowth s =
      let g = close_devices b.close s.gamepads s.world in
      let k = close_devices b.close s.keyboards g.1 in
      let m = close_devices b.close s.mice k.1 in
      let t = close_devices b.close s.touchscreens m.1 in
      let p = close_devices b.close s.trackpads t.1 in
      IsGrowth-same s _ refl (λ id. omega (
        arith,
        count_id-close_devices b.close id s.gamepads s.world,
        count_id-close_devices b.close id s.keyboards g.1,
        count_id-close_devices b.close id s.mice k.1,
        count_id-close_devices b.close id s.touchscreens m.1,
        count_id-close_devices b.close id s.trackpads t.1,
        count_id-close_devices b.close id s.pen_tablets p.1,
      ))

  step-IsGrowth :
      (c : RuntimeCall) (s : State)
      → s.next_device_id + 1 < 2 ^ 64
      → IsGrowth s (step b Last fresh c s)
  unfolding step
  step-IsGrowth (new_gamepad o) s h = create_gamepad-IsGrowth o s h
  step-IsGrowth (new_keyboard o) s h = create_keyboard-IsGrowth o s h
  step-IsGrowth (new_mouse o) s h = create_mouse-IsGrowth o s h
  step-IsGrowth (new_touchscreen o) s h = create_touchscreen-IsGrowth o s h
  step-IsGrowth (new_trackpad o) s h = create_trackpad-IsGrowth o s h
  step-IsGrowth (new_pen_tablet o) s h = create_pen_tablet-IsGrowth o s h
  step-IsGrowth (closes kind i) s h = close_handle-IsGrowth kind i s
  step-IsGrowth (destroys kind i) s h = destroy_handle-IsGrowth kind i s
  step-IsGrowth closes_all s h = close_all-IsGrowth s

  -- No id belongs to two devices, and none from the next id on belongs to any.
  record IsNumbered (s : State) : Type 0 where
    at_most_one : (k : ℕ) → with_id k s ≤ 1
    unused : (k : ℕ) → s.next_device_id ≤ k → with_id k s ≡ 0

  IsGrowth-IsNumbered : (s t : State) → IsGrowth s t → IsNumbered s → IsNumbered t
  IsGrowth-IsNumbered s t g n = record {
    at_most_one = λ k. ground (
      arith,
      g.counts k,
      n.at_most_one k,
      n.unused k,
      times_le (t.next_device_id - s.next_device_id) (is_id s.next_device_id k),
    );
    unused = λ k h. ground (
      arith,
      g.counts k,
      g.least,
      g.most,
      n.unused k,
      times_le (t.next_device_id - s.next_device_id) (is_id s.next_device_id k),
    );
  }

  run-IsNumbered :
      (cs : List RuntimeCall) (s : State)
      → s.next_device_id + length cs < 2 ^ 64
      → IsNumbered s
      → IsNumbered (run b Last fresh cs s)
  unfolding run
  run-IsNumbered [] s h n = n
  run-IsNumbered (c ∷ cs) s h n =
      let t = step b Last fresh c s in
      let g = step-IsGrowth c s (omega arith) in
      run-IsNumbered cs t (omega (arith, g.most)) (IsGrowth-IsNumbered s t g n)

  -- Whatever the backend answers, after any history of fewer than 2 ^ 64 - 1 calls that create,
  -- close and destroy devices of the six types on a new runtime, no two devices have the same id.
  pub run-new_runtime :
      (w : b.World) (cs : List RuntimeCall) (id : ℕ)
      → length cs + 1 < 2 ^ 64
      → devices_with_id b Last fresh id (run b Last fresh cs (new_runtime b Last fresh w)) ≤ 1
  unfolding devices_with_id count_id
  run-new_runtime w cs id h =
      (run-IsNumbered cs (new_runtime b Last fresh w) (omega arith)
          (record { at_most_one = λ k. omega arith; unused = λ k l. omega arith })).at_most_one
        id
