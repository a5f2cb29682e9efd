-- ===== src/Driver/Sessions/Table.antt =====
-- The table, VHF and the framework know the same devices.
use plank_libvirtualhid.Common.{
  ℕ, ◌+◌, ◌-◌, ◌^◌, ◌≤◌, ◌<◌, ◌≡◌, refl, some, none, Bool, not, Option, List, [], ◌∷◌, length, ◌==◌,
  if_elim, same_text, arith,
}
use plank_libvirtualhid.Driver.Sessions.{
  VhfAnswers, delete_vhf_device, Session, SessionTable, no_sessions, Reply, find_session,
  handle_create_gamepad_request, destroy_session, handle_destroy_device_request, delete_sessions,
  delete_vhf_devices_for_device, delete_vhf_devices_for_file, handle_reset_devices_request, Op,
  creates, destroys, resets, removes_device, cleans_file, step, run,
}
use plank_libvirtualhid.Driver.Sessions.Creation.{
  IsTabled, create_device-IsTabled, create_device-next,
}
use plank_libvirtualhid.Driver.Sessions.Ids.{
  has_session-erase_session, has_id-delete_object, find_session-handles, has_session-erase_owned,
  has_id-delete_owned, IsDistinct-erase_session, IsDistinct-erase_owned,
}

delete_sessions-IsTabled :
    (owned : Session → Bool) (t : SessionTable) → IsTabled t → IsTabled (delete_sessions owned t)
unfolding delete_sessions
delete_sessions-IsTabled owned t v = record {
  distinct = IsDistinct-erase_owned t.next_driver_device_id owned t.devices v.distinct;
  in_vhf = λ i. ground (
    arith,
    v.in_vhf i,
    has_session-erase_owned i owned t.devices,
    has_id-delete_owned i t.next_driver_device_id owned (λ s. s.vhf_handle) t.devices t.vhf_devices
        (λ s h g. h) v.distinct,
  );
  in_targets = λ i. ground (
    arith,
    v.in_targets i,
    has_session-erase_owned i owned t.devices,
    has_id-delete_owned i t.next_driver_device_id owned (λ s. s.vhf_io_target) t.devices
        t.io_targets (λ s h g. g) v.distinct,
  );
}

destroy_session-IsTabled :
    (o : Option Session) (id : ℕ) (token : List ℕ) (t : SessionTable)
    → find_session id t.devices ≡ o
    → IsTabled t
    → IsTabled (destroy_session o id token t).1
unfolding destroy_session delete_vhf_device
destroy_session-IsTabled none id token t e v = v
destroy_session-IsTabled (some s) id token t e v =
    let held = find_session-handles t.next_driver_device_id id t.devices s v.distinct e in
    if_elim (λ (r : Reply × SessionTable). IsTabled r.1) (not (same_text s.session_token token))
      (λ _. v)
      (λ _. record {
        distinct = IsDistinct-erase_session t.next_driver_device_id id t.devices v.distinct;
        in_vhf = λ i. ground (
          arith,
          held.0,
          v.in_vhf i,
          has_session-erase_session i id t.devices,
          has_id-delete_object i id t.vhf_devices,
        );
        in_targets = λ i. ground (
          arith,
          held.1,
          v.in_targets i,
          has_session-erase_session i id t.devices,
          has_id-delete_object i id t.io_targets,
        );
      })

create-IsTabled :
    (authorized retrieved valid generated : Bool) (a : VhfAnswers) (session : Session)
    (t : SessionTable)
    → t.next_driver_device_id + 1 < 2 ^ 64
    → IsTabled t
    → IsTabled (handle_create_gamepad_request authorized retrieved valid generated a session t).1
unfolding handle_create_gamepad_request
create-IsTabled authorized retrieved valid generated a session t h v =
    let P : Reply × SessionTable → Type 0 = λ r. IsTabled r.1 in
    if_elim P (not authorized) (λ _. v)
      (λ _.
        if_elim P (not retrieved) (λ _. v)
          (λ _.
            if_elim P (not valid) (λ _. v) (λ _. create_device-IsTabled t h v generated a session)))

destroy-IsTabled :
    (authorized retrieved valid : Bool) (id : ℕ) (token : List ℕ) (t : SessionTable)
    → IsTabled t
    → IsTabled (handle_destroy_device_request authorized retrieved valid id token t).1
unfolding handle_destroy_device_request
destroy-IsTabled authorized retrieved valid id token t v =
    let P : Reply × SessionTable → Type 0 = λ r. IsTabled r.1 in
    if_elim P (not authorized) (λ _. v)
      (λ _.
        if_elim P (not retrieved) (λ _. v)
          (λ _.
            if_elim P (not valid) (λ _. v)
              (λ _. destroy_session-IsTabled (find_session id t.devices) id token t refl v)))

device-IsTabled :
    (device : ℕ) (t : SessionTable) → IsTabled t → IsTabled (delete_vhf_devices_for_device device t)
unfolding delete_vhf_devices_for_device
device-IsTabled device t v =
    if_elim IsTabled (device == 0) (λ _. v)
      (λ _. delete_sessions-IsTabled (λ s. s.owner_device == device) t v)

file-IsTabled :
    (file : ℕ) (t : SessionTable) → IsTabled t → IsTabled (delete_vhf_devices_for_file file t)
unfolding delete_vhf_devices_for_file
file-IsTabled file t v =
    if_elim IsTabled (file == 0) (λ _. v)
      (λ _. delete_sessions-IsTabled (λ s. s.owner_file == file) t v)

reset-IsTabled :
    (authorized retrieved valid : Bool) (device : ℕ) (t : SessionTable)
    → IsTabled t
    → IsTabled (handle_reset_devices_request authorized retrieved valid device t).1
unfolding handle_reset_devices_request
reset-IsTabled authorized retrieved valid device t v =
    let P : Reply × SessionTable → Type 0 = λ r. IsTabled r.1 in
    if_elim P (not authorized) (λ _. v)
      (λ _.
        if_elim P (not retrieved) (λ _. v)
          (λ _. if_elim P (not valid) (λ _. v) (λ _. device-IsTabled device t v)))

step-IsTabled :
    (op : Op) (t : SessionTable)
    → t.next_driver_device_id + 1 < 2 ^ 64
    → IsTabled t
    → IsTabled (step op t)
unfolding step
step-IsTabled (creates authorized retrieved valid generated a session) t h v =
    create-IsTabled authorized retrieved valid generated a session t h v
step-IsTabled (destroys authorized retrieved valid id token) t h v =
    destroy-IsTabled authorized retrieved valid id token t v
step-IsTabled (resets authorized retrieved valid device) t h v =
    reset-IsTabled authorized retrieved valid device t v
step-IsTabled (removes_device device) t h v = device-IsTabled device t v
step-IsTabled (cleans_file file) t h v = file-IsTabled file t v

destroy_session-next :
    (o : Option Session) (id : ℕ) (token : List ℕ) (t : SessionTable)
    → (destroy_session o id token t).1.next_driver_device_id ≡ t.next_driver_device_id
unfolding destroy_session delete_vhf_device
destroy_session-next none id token t = refl
destroy_session-next (some s) id token t =
    if_elim (λ (r : Reply × SessionTable). r.1.next_driver_device_id ≡ t.next_driver_device_id)
      (not (same_text s.session_token token)) (λ _. refl) (λ _. refl)

-- A step takes at most one id.
step-next :
    (op : Op) (t : SessionTable) → (step op t).next_driver_device_id ≤ t.next_driver_device_id + 1
unfolding step handle_create_gamepad_request handle_destroy_device_request
    handle_reset_devices_request destroy_session delete_vhf_devices_for_device
    delete_vhf_devices_for_file delete_sessions
step-next (creates authorized retrieved valid generated a session) t =
    ground (arith, create_device-next generated a t.next_driver_device_id session t)
step-next (destroys authorized retrieved valid id token) t =
    ground (arith, destroy_session-next (find_session id t.devices) id token t)
step-next (resets authorized retrieved valid device) t = ground arith
step-next (removes_device device) t = ground arith
step-next (cleans_file file) t = ground arith

run-IsTabled :
    (ops : List Op) (t : SessionTable)
    → t.next_driver_device_id + length ops < 2 ^ 64
    → IsTabled t
    → IsTabled (run ops t)
unfolding run
run-IsTabled [] t h v = v
run-IsTabled (op ∷ ops) t h v =
    run-IsTabled ops (step op t) (omega (arith, h, step-next op t))
      (step-IsTabled op t (omega (arith, h)) v)

-- After any history of fewer than 2^64 - 1 requests and clean-ups from an empty table, whatever the
-- system answers, also in the middle of the creation of a device: each device has an id of its own,
-- below the next one, its session has its handles, and the devices that exist in VHF, as well as
-- the I/O targets, are exactly those with a session, so that none is left behind.
pub run-no_sessions : (ops : List Op) → length ops < 2 ^ 64 - 1 → IsTabled (run ops no_sessions)
run-no_sessions ops h =
    run-IsTabled ops no_sessions (omega (arith, h))
      (record { distinct = tt; in_vhf = λ i. refl; in_targets = λ i. refl })
