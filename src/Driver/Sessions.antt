-- ===== src/Driver/Sessions.antt =====
-- The table of devices in src/platform/windows/driver/libvirtualhid_umdf.cpp and the requests and
-- callbacks that change it. Framework objects are numbers; whether the caller is the broker, the
-- buffers can be had and the message is valid are arguments, and so is what the system answers.
pub mod Ids
pub mod Creation
pub mod Table
use plank_libvirtualhid.Common.{
  ℕ, ◌+◌, ◌%◌, ◌^◌, Bool, true, false, not, ◌&&◌, ◌||◌, Option, none, some, List, [], ◌∷◌, ◌++◌,
  is_empty, ◌==◌, if◌then◌else◌, same_text,
}

-- What `DeviceRecord` says of the owner of a device, and whether it has a handle of a VHF device and
-- an I/O target, which are known by the device's id.
pub record Session : Type 0 where
  pub owner_device : ℕ
  pub owner_file : ℕ
  pub session_token : List ℕ
  pub vhf_handle : Bool
  pub vhf_io_target : Bool

abbrev pub Sessions : Type 0
Sessions = List (ℕ × Session)

-- The table, and the VHF devices and I/O targets that exist.
pub record SessionTable : Type 0 where
  pub next_driver_device_id : ℕ
  pub devices : Sessions
  pub vhf_devices : List ℕ
  pub io_targets : List ℕ

abbrev pub no_sessions : SessionTable
no_sessions = record { next_driver_device_id = 1; devices = []; vhf_devices = []; io_targets = [] }

-- How a request is completed.
pub data Reply : Type 0 where
  access_denied not_retrieved invalid_parameter object_name_not_found succeeded : Reply
  invalid_argument backend_failure : Reply
  created : ℕ → (session_token : List ℕ) → Reply
  queued : ℕ → (report : List ℕ) → Reply

unfoldable pub find_session : ℕ → Sessions → Option Session
find_session id [] = none
find_session id ((i, s) ∷ ss) = if i == id then some s else find_session id ss

unfoldable pub erase_session : ℕ → Sessions → Sessions
erase_session id [] = []
erase_session id ((i, s) ∷ ss) =
    if i == id then erase_session id ss else (i, s) ∷ erase_session id ss

-- `devices[id] = record`; the table is kept in the order of creation.
unfoldable pub assign_session : ℕ → Session → Sessions → Sessions
assign_session id session ss = erase_session id ss ++ ((id, session) ∷ [])

-- `VhfDelete` and `WdfObjectDelete`.
unfoldable pub delete_object : ℕ → List ℕ → List ℕ
delete_object id [] = []
delete_object id (i ∷ is) = if i == id then delete_object id is else i ∷ delete_object id is

-- `delete_vhf_device`; its callers let go of the record, whose handles are no longer of use.
unfoldable pub delete_vhf_device : ℕ → Session → SessionTable → SessionTable
delete_vhf_device id session t = record t {
  vhf_devices = if session.vhf_handle then delete_object id t.vhf_devices else t.vhf_devices;
  io_targets = if session.vhf_io_target then delete_object id t.io_targets else t.io_targets;
}

-- What the framework and VHF answer to the calls that make a device.
pub record VhfAnswers : Type 0 where
  pub target_created : Bool
  pub target_opened : Bool
  pub vhf_created : Bool
  pub vhf_started : Bool

unfoldable pub initialize_vhf_target :
    VhfAnswers → ℕ → Session → SessionTable → (Bool × Session) × SessionTable
initialize_vhf_target a id session t =
    let u = record t { io_targets = t.io_targets ++ (id ∷ []) } in
    if not a.target_created
    then ((false, session), t)
    else if not a.target_opened
    then ((false, session), record u { io_targets = delete_object id u.io_targets })
    else ((true, record session { vhf_io_target = true }), u)

-- `create_vhf_device` from `VhfCreate` on.
unfoldable pub start_vhf_device :
    VhfAnswers → ℕ → (Bool × Session) × SessionTable → (Bool × Session) × SessionTable
start_vhf_device a id ((false, session), t) = ((false, session), t)
start_vhf_device a id ((true, session), t) =
    let s = record session { vhf_handle = true } in
    let u = record t { vhf_devices = t.vhf_devices ++ (id ∷ []) } in
    if not a.vhf_created
    then ((false, session), delete_vhf_device id session t)
    else if not a.vhf_started
    then ((false, s), delete_vhf_device id s u)
    else ((true, s), u)

unfoldable pub create_vhf_device :
    VhfAnswers → ℕ → Session → SessionTable → (Bool × Session) × SessionTable
create_vhf_device a id session t = start_vhf_device a id (initialize_vhf_target a id session t)

unfoldable pub enter_session : ℕ → (Bool × Session) × SessionTable → Reply × SessionTable
enter_session id ((false, session), t) = (backend_failure, t)
enter_session id ((true, session), t) =
    (created id session.session_token, record t { devices = assign_session id session t.devices })

-- The fate of a device whose request is valid: the token, then VHF, then the table. A new record
-- has no handles.
unfoldable pub create_device :
    (generated : Bool) → VhfAnswers → ℕ → Session → SessionTable → Reply × SessionTable
create_device generated a id session t =
    let u = record t { next_driver_device_id = (id + 1) % 2 ^ 64 } in
    let new = record session { vhf_handle = false; vhf_io_target = false } in
    if not generated then (backend_failure, u) else enter_session id (create_vhf_device a id new u)

unfoldable pub handle_create_gamepad_request :
    (authorized retrieved valid generated : Bool)
    → VhfAnswers
    → Session
    → SessionTable
    → Reply × SessionTable
handle_create_gamepad_request authorized retrieved valid generated a session t =
    if not authorized
    then (access_denied, t)
    else if not retrieved
    then (not_retrieved, t)
    else if not valid
    then (invalid_argument, t)
    else create_device generated a t.next_driver_device_id session t

unfoldable pub destroy_session :
    Option Session → ℕ → (session_token : List ℕ) → SessionTable → Reply × SessionTable
destroy_session none id token t = (succeeded, t)
destroy_session (some session) id token t =
    if not (same_text session.session_token token) then (access_denied, t) else (
      succeeded,
      delete_vhf_device id session (record t { devices = erase_session id t.devices }),
    )

unfoldable pub handle_destroy_device_request :
    (authorized retrieved valid : Bool)
    → ℕ
    → (session_token : List ℕ) → SessionTable
    → Reply × SessionTable
handle_destroy_device_request authorized retrieved valid id token t =
    if not authorized
    then (access_denied, t)
    else if not retrieved
    then (not_retrieved, t)
    else if not valid
    then (invalid_parameter, t)
    else destroy_session (find_session id t.devices) id token t

-- The sessions that an owner leaves, and the objects that are left once its own are deleted.
unfoldable pub erase_owned : (Session → Bool) → Sessions → Sessions
erase_owned owned [] = []
erase_owned owned ((i, s) ∷ ss) =
    if owned s then erase_owned owned ss else (i, s) ∷ erase_owned owned ss

unfoldable pub delete_owned : (owned held : Session → Bool) → Sessions → List ℕ → List ℕ
delete_owned owned held [] is = is
delete_owned owned held ((i, s) ∷ ss) is =
    delete_owned owned held ss (if owned s && held s then delete_object i is else is)

unfoldable pub delete_sessions : (Session → Bool) → SessionTable → SessionTable
delete_sessions owned t = record t {
  devices = erase_owned owned t.devices;
  vhf_devices = delete_owned owned (λ s. s.vhf_handle) t.devices t.vhf_devices;
  io_targets = delete_owned owned (λ s. s.vhf_io_target) t.devices t.io_targets;
}

-- A null device or file, which is 0, has no devices.
unfoldable pub delete_vhf_devices_for_device : ℕ → SessionTable → SessionTable
delete_vhf_devices_for_device device t =
    if device == 0 then t else delete_sessions (λ s. s.owner_device == device) t

unfoldable pub delete_vhf_devices_for_file : ℕ → SessionTable → SessionTable
delete_vhf_devices_for_file file t =
    if file == 0 then t else delete_sessions (λ s. s.owner_file == file) t

unfoldable pub handle_reset_devices_request :
    (authorized retrieved valid : Bool) → ℕ → SessionTable → Reply × SessionTable
handle_reset_devices_request authorized retrieved valid device t =
    if not authorized
    then (access_denied, t)
    else if not retrieved
    then (not_retrieved, t)
    else if not valid
    then (invalid_parameter, t)
    else (succeeded, delete_vhf_devices_for_device device t)

-- What happens to the table.
pub data Op : Type 0 where
  creates : (authorized retrieved valid generated : Bool) → VhfAnswers → Session → Op
  destroys : (authorized retrieved valid : Bool) → ℕ → (session_token : List ℕ) → Op
  resets : (authorized retrieved valid : Bool) → ℕ → Op
  removes_device : ℕ → Op
  cleans_file : ℕ → Op

unfoldable pub step : Op → SessionTable → SessionTable
step (creates authorized retrieved valid generated a session) t =
    (handle_create_gamepad_request authorized retrieved valid generated a session t).1
step (destroys authorized retrieved valid id token) t =
    (handle_destroy_device_request authorized retrieved valid id token t).1
step (resets authorized retrieved valid device) t =
    (handle_reset_devices_request authorized retrieved valid device t).1
step (removes_device device) t = delete_vhf_devices_for_device device t
step (cleans_file file) t = delete_vhf_devices_for_file file t

unfoldable pub run : List Op → SessionTable → SessionTable
run [] t = t
run (op ∷ ops) t = run ops (step op t)
