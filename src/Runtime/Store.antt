-- ===== src/Runtime/Store.antt =====
-- The lists of devices of `RuntimeState` in src/core/runtime.cpp. Such a list holds weak pointers
-- to devices that the client's handles own. Here the list owns the devices, and a handle is a
-- position in it; `none` stands for a weak pointer whose device is gone.
use plank_libvirtualhid.Common.{
  ℕ, zero, suc, ◌+◌, ◌≡◌, ◌≤◌, refl, ap, false, Option, none, some, List, [], ◌∷◌, ◌++◌, ◌==◌,
  if◌then◌else◌, arith,
}
use plank_libvirtualhid.Types.{OperationStatus, success}
use plank_libvirtualhid.Runtime.Device.{Device, on_backend, close}

-- One weak pointer counts if its device is there and open.
abbrev pub count_open_device :
    {Handle Options Last : Type 0} → Option (Device Handle Options Last) → ℕ
count_open_device none = 0
count_open_device (some d) = if d.is_open then 1 else 0

unfoldable pub count_open_devices :
    {Handle Options Last : Type 0} → List (Option (Device Handle Options Last)) → ℕ
count_open_devices [] = 0
count_open_devices (d ∷ ds) = count_open_device d + count_open_devices ds

-- The devices of the list with this id.
abbrev pub count_id_device :
    {Handle Options Last : Type 0} → ℕ → Option (Device Handle Options Last) → ℕ
count_id_device id none = 0
count_id_device id (some d) = if d.id == id then 1 else 0

unfoldable pub count_id :
    {Handle Options Last : Type 0} → ℕ → List (Option (Device Handle Options Last)) → ℕ
count_id id [] = 0
count_id id (d ∷ ds) = count_id_device id d + count_id id ds

pub count_id-append :
    {Handle Options Last : Type 0}
    → (id : ℕ) (ds : List (Option (Device Handle Options Last))) (d : Device Handle Options Last)
    → count_id id (ds ++ some d ∷ []) ≡ count_id id ds + (if d.id == id then 1 else 0)
unfolding count_id
count_id-append id [] d = omega arith
count_id-append id (x ∷ ds) d = omega (arith, count_id-append id ds d)

module _ {World Handle Options Last : Type 0} where
  -- The body of the loop of `close_devices`: the backend's device is closed whether or not the
  -- device is open, and its answer is dropped.
  unfoldable pub close_device :
      (Handle → World → OperationStatus × World)
      → Option (Device Handle Options Last)
      → World
      → Option (Device Handle Options Last) × World
  close_device backend_close none w = (none, w)
  close_device backend_close (some d) w =
      let r = on_backend d.backend backend_close w in (some (record d { is_open = false }), r.1)

  unfoldable pub close_devices :
      (Handle → World → OperationStatus × World)
      → List (Option (Device Handle Options Last))
      → World
      → List (Option (Device Handle Options Last)) × World
  close_devices backend_close [] w = ([], w)
  close_devices backend_close (d ∷ ds) w =
      let r = close_device backend_close d w in
      let rest = close_devices backend_close ds r.1 in (r.0 ∷ rest.0, rest.1)

  -- A handle's `close`, on the device at a position; a handle whose device is gone cannot be used.
  unfoldable pub close_slot :
      (Handle → World → OperationStatus × World)
      → Option (Device Handle Options Last)
      → World
      → OperationStatus × Option (Device Handle Options Last) × World
  close_slot backend_close none w = (success, none, w)
  close_slot backend_close (some d) w = let r = close backend_close d w in (r.0, some r.1, r.2)

  unfoldable pub close_at :
      (Handle → World → OperationStatus × World)
      → ℕ
      → List (Option (Device Handle Options Last))
      → World
      → OperationStatus × List (Option (Device Handle Options Last)) × World
  close_at backend_close i [] w = (success, [], w)
  close_at backend_close zero (d ∷ ds) w =
      let r = close_slot backend_close d w in (r.0, r.1 ∷ ds, r.2)
  close_at backend_close (suc i) (d ∷ ds) w =
      let r = close_at backend_close i ds w in (r.0, d ∷ r.1, r.2)

  -- A handle's destructor closes the device, which is gone afterwards.
  unfoldable pub destroy_at :
      (Handle → World → OperationStatus × World)
      → ℕ
      → List (Option (Device Handle Options Last))
      → World
      → List (Option (Device Handle Options Last)) × World
  destroy_at backend_close i [] w = ([], w)
  destroy_at backend_close zero (d ∷ ds) w = (none ∷ ds, (close_slot backend_close d w).2)
  destroy_at backend_close (suc i) (d ∷ ds) w =
      let r = destroy_at backend_close i ds w in (d ∷ r.0, r.1)

  pub count_open-close_devices :
      (bc : Handle → World → OperationStatus × World)
      → (ds : List (Option (Device Handle Options Last))) (w : World)
      → count_open_devices (close_devices bc ds w).0 ≡ 0
  unfolding count_open_devices close_devices close_device
  count_open-close_devices bc [] w = refl
  count_open-close_devices bc (none ∷ ds) w = omega (arith, count_open-close_devices bc ds w)
  count_open-close_devices bc (some d ∷ ds) w =
      omega (arith, count_open-close_devices bc ds (on_backend d.backend bc w).1)

  pub count_id-close_devices :
      (bc : Handle → World → OperationStatus × World)
      → (id : ℕ) (ds : List (Option (Device Handle Options Last))) (w : World)
      → count_id id (close_devices bc ds w).0 ≡ count_id id ds
  unfolding count_id close_devices close_device
  count_id-close_devices bc id [] w = refl
  count_id-close_devices bc id (none ∷ ds) w = ap (◌+◌ 0) (count_id-close_devices bc id ds w)
  count_id-close_devices bc id (some d ∷ ds) w =
      ap (◌+◌ (if d.id == id then 1 else 0))
        (count_id-close_devices bc id ds (on_backend d.backend bc w).1)

  close-id :
      (bc : Handle → World → OperationStatus × World)
      → (d : Device Handle Options Last) (w : World) → (close bc d w).1.id ≡ d.id
  unfolding close
  close-id bc d w = ground arith

  pub count_id-close_at :
      (bc : Handle → World → OperationStatus × World)
      → (id i : ℕ) (ds : List (Option (Device Handle Options Last))) (w : World)
      → count_id id (close_at bc i ds w).1 ≡ count_id id ds
  unfolding count_id close_at close_slot
  count_id-close_at bc id i [] w = refl
  count_id-close_at bc id zero (none ∷ ds) w = refl
  count_id-close_at bc id zero (some d ∷ ds) w =
      ap (λ n. (if n == id then 1 else 0) + count_id id ds) (close-id bc d w)
  count_id-close_at bc id (suc i) (d ∷ ds) w =
      ap (◌+◌ (count_id_device id d)) (count_id-close_at bc id i ds w)

  pub count_id-destroy_at :
      (bc : Handle → World → OperationStatus × World)
      → (id i : ℕ) (ds : List (Option (Device Handle Options Last))) (w : World)
      → count_id id (destroy_at bc i ds w).0 ≤ count_id id ds
  unfolding count_id destroy_at
  count_id-destroy_at bc id i [] w = omega arith
  count_id-destroy_at bc id zero (d ∷ ds) w = omega arith
  count_id-destroy_at bc id (suc i) (d ∷ ds) w = omega (arith, count_id-destroy_at bc id i ds w)
