-- ===== src/Runtime/Device.antt =====
-- One virtual device of src/core/runtime.cpp. The six structs `GamepadDevice` … `PenTabletDevice`
-- differ in the types of their options and of what they remember of the last event, which are
-- parameters here. A `World` is the state behind the backend, and a call of a backend's device
-- takes and returns it.
use Prim.Native.String.{String}
use plank_libvirtualhid.Common.{
  ℕ, ◌+◌, ◌%◌, ◌^◌, Bool, true, false, not, Option, none, some, if◌then◌else◌,
}
use plank_libvirtualhid.Types.{OperationStatus, ErrorCode, success, failure, is_ok}

pub record Device (Handle Options Last : Type 0) : Type 0 where
  pub id : ℕ
  pub options : Options
  pub backend : Option Handle
  pub is_open : Bool
  pub last : Last
  pub submitted : ℕ

-- The constructors of the six structs.
abbrev pub new_device :
    {Handle Options Last : Type 0} → ℕ → Options → Option Handle → Last → Device Handle Options Last
new_device id options backend last = record {
  id = id;
  options = options;
  backend = backend;
  is_open = true;
  last = last;
  submitted = 0;
}

-- `if (device.backend) …`: a device without a backend succeeds at once.
unfoldable pub on_backend :
    {World Handle : Type 0}
    → Option Handle
    → (Handle → World → OperationStatus × World)
    → World
    → OperationStatus × World
on_backend none act w = (success, w)
on_backend (some h) act w = act h w

module _ {World Handle Options Last : Type 0} where
  unfoldable pub close :
      (Handle → World → OperationStatus × World)
      → Device Handle Options Last
      → World
      → OperationStatus × Device Handle Options Last × World
  close backend_close d w =
      if not d.is_open
      then (success, d, w)
      else let r = on_backend d.backend backend_close w in (r.0, record d { is_open = false }, r.1)

  -- What follows the backend's answer: the event is remembered and counted in a `std::size_t`.
  unfoldable pub record_event :
      (Last → Last)
      → Device Handle Options Last
      → OperationStatus × World
      → OperationStatus × Device Handle Options Last × World
  record_event update d r =
      if is_ok r.0
      then (success, record d { last = update d.last; submitted = (d.submitted + 1) % 2 ^ 64 }, r.1)
      else (r.0, d, r.1)

  -- `submit_touch_event`, and the part under the lock of the members that submit an event.
  unfoldable pub submit_event :
      String
      → (Handle → World → OperationStatus × World)
      → (Last → Last)
      → Device Handle Options Last
      → World
      → OperationStatus × Device Handle Options Last × World
  submit_event closed_message act update d w =
      if not d.is_open
      then (failure ErrorCode.device_closed closed_message, d, w)
      else record_event update d (on_backend d.backend act w)

  -- `submit` of a keyboard and of a mouse, and the members that place a contact, look at the event
  -- before they take the lock; a member that does not has `success` here.
  unfoldable pub submit_validated :
      (validation : OperationStatus)
      → String
      → (Handle → World → OperationStatus × World)
      → (Last → Last)
      → Device Handle Options Last
      → World
      → OperationStatus × Device Handle Options Last × World
  submit_validated validation closed_message act update d w =
      if not (is_ok validation)
      then (validation, d, w)
      else submit_event closed_message act update d w
