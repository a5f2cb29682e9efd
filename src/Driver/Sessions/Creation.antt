-- ===== src/Driver/Sessions/Creation.antt =====
-- The creation of a device, which may fail at each call of the framework and of VHF.
use plank_libvirtualhid.Common.{
  ℕ, ◌+◌, ◌%◌, ◌^◌, ◌≤◌, ◌<◌, ◌≡◌, refl, ◌∙◌, true, false, subst, Bool, not, List, [], ◌∷◌, ◌++◌,
  if_elim, arith,
}
use plank_libvirtualhid.Driver.Sessions.{
  VhfAnswers, create_vhf_device, initialize_vhf_target, start_vhf_device, enter_session,
  delete_vhf_device, delete_object, Session, Sessions, SessionTable, Reply, erase_session,
  assign_session, create_device,
}
use plank_libvirtualhid.Driver.Sessions.Ids.{
  has_id, has_session, IsDistinct, has_id-delete_object, has_session-bound, has_id-append,
  has_session-append, erase_session-new, IsDistinct-append,
}

-- The ids in use are below the next one, there is one session for each, and there is a VHF device
-- and an I/O target for exactly the devices that have a session, which has their handles.
pub record IsTabled (t : SessionTable) : Type 0 where
  pub distinct : IsDistinct t.next_driver_device_id t.devices
  pub in_vhf : (i : ℕ) → has_id i t.vhf_devices ≡ has_session i t.devices
  pub in_targets : (i : ℕ) → has_id i t.io_targets ≡ has_session i t.devices

-- A larger bound.
IsDistinct-suc : (bound : ℕ) (ss : Sessions) → IsDistinct bound ss → IsDistinct (bound + 1) ss
IsDistinct-suc bound [] d = tt
IsDistinct-suc bound ((j, s) ∷ ss) d =
    (d.0, omega (arith, d.1), d.2, d.3, IsDistinct-suc bound ss d.4)

-- The next id, which does not wrap yet, is a bound for what is in the table now.
IsDistinct-next :
    (id : ℕ) (ss : Sessions)
    → id + 1 < 2 ^ 64
    → IsDistinct (id + 1) ss
    → IsDistinct ((id + 1) % 2 ^ 64) ss
IsDistinct-next id ss h d =
    let same : id + 1 ≡ (id + 1) % 2 ^ 64 = omega (arith, h) in subst (λ n. IsDistinct n ss) same d

-- A new object that is deleted again is as if it had not been there.
has_id-deleted_again :
    (i id : ℕ) (is : List ℕ)
    → has_id id is ≡ false
    → has_id i (delete_object id (is ++ (id ∷ []))) ≡ has_id i is
has_id-deleted_again i id is h =
    ground (arith, h, has_id-delete_object i id (is ++ (id ∷ [])), has_id-append i id is)

-- A device that is made, or not, with the next id.
module _ (t : SessionTable) (h : t.next_driver_device_id + 1 < 2 ^ 64) (v : IsTabled t) where
  not_entered-IsTabled :
      (vhf targets : List ℕ)
      → ((i : ℕ) → has_id i vhf ≡ has_id i t.vhf_devices)
      → ((i : ℕ) → has_id i targets ≡ has_id i t.io_targets)
      → IsTabled (record t {
        next_driver_device_id = (t.next_driver_device_id + 1) % 2 ^ 64;
        vhf_devices = vhf;
        io_targets = targets;
      })
  not_entered-IsTabled vhf targets a b =
      let id = t.next_driver_device_id in
      record {
        distinct = IsDistinct-next id t.devices h (IsDistinct-suc id t.devices v.distinct);
        in_vhf = λ i. a i ∙ v.in_vhf i;
        in_targets = λ i. b i ∙ v.in_targets i;
      }

  entered-IsTabled :
      (s : Session)
      → s.vhf_handle ≡ true
      → s.vhf_io_target ≡ true
      → let id = t.next_driver_device_id in
        IsTabled (record t {
          next_driver_device_id = (id + 1) % 2 ^ 64;
          devices = assign_session id s t.devices;
          vhf_devices = t.vhf_devices ++ (id ∷ []);
          io_targets = t.io_targets ++ (id ∷ []);
        })
  unfolding assign_session
  entered-IsTabled s f g =
      let id = t.next_driver_device_id in
      let kept = erase_session-new id id t.devices (omega arith) v.distinct in
      record {
        distinct =
            IsDistinct-next id (erase_session id t.devices ++ ((id, s) ∷ [])) h
              (rw kept (IsDistinct-append id s t.devices f g v.distinct));
        in_vhf = λ i. rw kept (
            ground (
              arith,
              v.in_vhf i,
              has_id-append i id t.vhf_devices,
              has_session-append i id s t.devices,
            ));
        in_targets = λ i. rw kept (
            ground (
              arith,
              v.in_targets i,
              has_id-append i id t.io_targets,
              has_session-append i id s t.devices,
            ));
      }

  pub create_device-IsTabled :
      (generated : Bool) (a : VhfAnswers) (session : Session)
      → IsTabled (create_device generated a t.next_driver_device_id session t).1
  unfolding create_device create_vhf_device initialize_vhf_target start_vhf_device enter_session
      delete_vhf_device
  create_device-IsTabled generated a session =
      let P : Reply × SessionTable → Type 0 = λ r. IsTabled r.1 in
      let id = t.next_driver_device_id in
      let Q : (Bool × Session) × SessionTable → Type 0 = λ r. IsTabled (enter_session id r).1 in
      let T : (Bool × Session) × SessionTable → Type 0 =
        λ r. IsTabled (enter_session id (start_vhf_device a id r)).1 in
      let unused : has_session id t.devices ≡ false = has_session-bound id t.devices v.distinct in
      let same_vhf = λ (i : ℕ). has_id-deleted_again i id t.vhf_devices (v.in_vhf id ∙ unused) in
      let same_targets =
        λ (i : ℕ). has_id-deleted_again i id t.io_targets (v.in_targets id ∙ unused) in
      if_elim P (not generated)
        (λ _. not_entered-IsTabled t.vhf_devices t.io_targets (λ i. refl) (λ i. refl))
        (λ _.
          if_elim T (not a.target_created)
            (λ _. not_entered-IsTabled t.vhf_devices t.io_targets (λ i. refl) (λ i. refl))
            (λ _.
              if_elim T (not a.target_opened)
                (λ _.
                  not_entered-IsTabled t.vhf_devices (delete_object id (t.io_targets ++ (id ∷ [])))
                    (λ i. refl) same_targets)
                (λ _.
                  if_elim Q (not a.vhf_created)
                    (λ _.
                      not_entered-IsTabled t.vhf_devices
                        (delete_object id (t.io_targets ++ (id ∷ []))) (λ i. refl) same_targets)
                    (λ _.
                      if_elim Q (not a.vhf_started)
                        (λ _.
                          not_entered-IsTabled (delete_object id (t.vhf_devices ++ (id ∷ [])))
                            (delete_object id (t.io_targets ++ (id ∷ []))) same_vhf same_targets)
                        (λ _.
                          entered-IsTabled
                            (record session { vhf_handle = true; vhf_io_target = true }) refl
                            refl)))))

-- The making of a device leaves the next id alone.
start_vhf_device-next :
    (a : VhfAnswers) (id : ℕ) (ok : Bool) (s : Session) (t : SessionTable)
    → (start_vhf_device a id ((ok, s), t)).1.next_driver_device_id ≡ t.next_driver_device_id
unfolding start_vhf_device delete_vhf_device
start_vhf_device-next a id false s t = refl
start_vhf_device-next a id true s t =
    let P : (Bool × Session) × SessionTable → Type 0 =
      λ r. r.1.next_driver_device_id ≡ t.next_driver_device_id in
    if_elim P (not a.vhf_created) (λ _. refl)
      (λ _. if_elim P (not a.vhf_started) (λ _. refl) (λ _. refl))

initialize_vhf_target-next :
    (a : VhfAnswers) (id : ℕ) (s : Session) (t : SessionTable)
    → (initialize_vhf_target a id s t).1.next_driver_device_id ≡ t.next_driver_device_id
unfolding initialize_vhf_target
initialize_vhf_target-next a id s t =
    let P : (Bool × Session) × SessionTable → Type 0 =
      λ r. r.1.next_driver_device_id ≡ t.next_driver_device_id in
    if_elim P (not a.target_created) (λ _. refl)
      (λ _. if_elim P (not a.target_opened) (λ _. refl) (λ _. refl))

enter_session-next :
    (id : ℕ) (ok : Bool) (s : Session) (t : SessionTable)
    → (enter_session id ((ok, s), t)).1.next_driver_device_id ≡ t.next_driver_device_id
unfolding enter_session
enter_session-next id false s t = refl
enter_session-next id true s t = refl

pub create_device-next :
    (generated : Bool) (a : VhfAnswers) (id : ℕ) (s : Session) (t : SessionTable)
    → (create_device generated a id s t).1.next_driver_device_id ≤ id + 1
unfolding create_device create_vhf_device
create_device-next generated a id s t =
    let u = record t { next_driver_device_id = (id + 1) % 2 ^ 64 } in
    let r = initialize_vhf_target a id (record s { vhf_handle = false; vhf_io_target = false }) u in
    let q = start_vhf_device a id r in
    if_elim (λ (r : Reply × SessionTable). r.1.next_driver_device_id ≤ id + 1) (not generated)
      (λ _. omega arith)
      (λ _. omega (
        arith,
        enter_session-next id q.0.0 q.0.1 q.1,
        start_vhf_device-next a id r.0.0 r.0.1 r.1,
        initialize_vhf_target-next a id (record s { vhf_handle = false; vhf_io_target = false }) u,
      ))
