-- ===== src/Broker/Cleanup/Survivors.antt =====
-- Which devices are left after a clean-up.
use plank_libvirtualhid.Common.{
  ℕ, ◌+◌, ◌-◌, ◌≤◌, ◌≡◌, ◌≢◌, refl, ◌∙◌, Bool, true, not, ◌&&◌, ◌||◌, Option, none, some, List, [],
  ◌∷◌, ◌==◌, if◌then◌else◌, if_elim, Bool-cases, inl, inr, same_text_refl, arith,
}
use plank_libvirtualhid.Broker.Clock.{
  license_outage_gamepad_should_be_revoked, broker_device_should_be_revoked,
}
use plank_libvirtualhid.Broker.Session.{
  DeviceRecord, Devices, BrokerState, find_device, erase_device, count_licensed,
}
use plank_libvirtualhid.Broker.Cleanup.{
  CleanupTests, should_clean, cleanup_requests, forget_found, destroy_cleanup_candidates,
  end_revocation, clean,
}

-- The devices that a clean-up leaves: those that it does not ask the driver to destroy, and those
-- that the driver does not destroy.
abbrev pub survivors : CleanupTests → (ℕ → Bool) → ℕ → Devices → Devices
survivors t destroyed kept [] = []
survivors t destroyed kept ((i, d) ∷ ds) =
    let asked = should_clean t kept i d in
    let rest =
      survivors t destroyed (if asked || d.github_actions_evaluation then kept else kept + 1) ds in
    if asked && destroyed i then rest else (i, d) ∷ rest

abbrev pub Fresh : ℕ → Devices → Type 0
Fresh i [] = Unit
Fresh i ((j, d) ∷ ds) = (j ≢ i) × Fresh i ds

-- No two devices have one id.
abbrev pub Distinct : Devices → Type 0
Distinct [] = Unit
Distinct ((i, d) ∷ ds) = Fresh i ds × Distinct ds

Fresh-cleanup_requests :
    (t : CleanupTests) (i kept : ℕ) (ds : Devices)
    → Fresh i ds
    → Fresh i (cleanup_requests t kept ds)
unfolding cleanup_requests
Fresh-cleanup_requests t i kept [] f = tt
Fresh-cleanup_requests t i kept ((j, d) ∷ ds) f =
    if_elim (Fresh i) (should_clean t kept j d) (λ _. (f.0, Fresh-cleanup_requests t i kept ds f.1))
      (λ _.
        Fresh-cleanup_requests t i (if d.github_actions_evaluation then kept else kept + 1) ds f.1)

-- What is done to other devices passes over one.
forget_found-other :
    (o : Option DeviceRecord) (i j : ℕ) (token : List ℕ) (d : DeviceRecord) (ds : Devices)
    → j ≢ i
    → forget_found o j token ((i, d) ∷ ds) ≡ (i, d) ∷ forget_found o j token ds
unfolding forget_found erase_device
forget_found-other none i j token d ds n = refl
forget_found-other (some c) i j token d ds n = ground (arith, n)

destroy-other :
    (destroyed : ℕ → Bool) (i : ℕ) (d : DeviceRecord) (rs ds : Devices)
    → Fresh i rs
    → destroy_cleanup_candidates destroyed rs ((i, d) ∷ ds)
      ≡ (i, d) ∷ destroy_cleanup_candidates destroyed rs ds
unfolding destroy_cleanup_candidates find_device
destroy-other destroyed i d [] ds f = refl
destroy-other destroyed i d ((j, c) ∷ rs) ds f = ground (
  arith,
  f.0,
  forget_found-other (find_device j ds) i j c.session_token d ds f.0,
  destroy-other destroyed i d rs (forget_found (find_device j ds) j c.session_token ds) f.1,
  destroy-other destroyed i d rs ds f.1,
)

-- The device that a request names is forgotten.
forget_found-first :
    (i : ℕ) (d : DeviceRecord) (ds : Devices)
    → forget_found (find_device i ((i, d) ∷ ds)) i d.session_token ((i, d) ∷ ds) ≡ ds
unfolding forget_found find_device erase_device
forget_found-first i d ds = ground (arith, same_text_refl d.session_token)

destroy_cleanup_candidates-survivors :
    (t : CleanupTests) (destroyed : ℕ → Bool) (kept : ℕ) (ds : Devices)
    → Distinct ds
    → destroy_cleanup_candidates destroyed (cleanup_requests t kept ds) ds
      ≡ survivors t destroyed kept ds
unfolding destroy_cleanup_candidates cleanup_requests
destroy_cleanup_candidates-survivors t destroyed kept [] n = refl
destroy_cleanup_candidates-survivors t destroyed kept ((i, d) ∷ ds) n =
    let k = if d.github_actions_evaluation then kept else kept + 1 in
    elim (Bool-cases (should_clean t kept i d)) [
      | inl e ↦ ground (
        arith,
        e,
        forget_found-first i d ds,
        destroy-other destroyed i d (cleanup_requests t kept ds) ds
            (Fresh-cleanup_requests t i kept ds n.0),
        destroy_cleanup_candidates-survivors t destroyed kept ds n.1,
      )
      | inr e ↦ ground (
        arith,
        e,
        destroy-other destroyed i d (cleanup_requests t k ds) ds
            (Fresh-cleanup_requests t i k ds n.0),
        destroy_cleanup_candidates-survivors t destroyed k ds n.1,
      )
    ]

devices-end_revocation : (s : BrokerState) → (end_revocation s).devices ≡ s.devices
unfolding end_revocation
devices-end_revocation s =
    if_elim (λ (r : BrokerState). r.devices ≡ s.devices)
      (s.revoke_licensed_devices && count_licensed s.devices == 0) (λ _. refl) (λ _. refl)

-- A clean-up of devices with ids of their own leaves exactly the survivors, in order, whatever
-- destructions the driver refuses.
pub devices-clean :
    (t : CleanupTests) (destroyed : ℕ → Bool) (s : BrokerState)
    → Distinct s.devices
    → (clean t destroyed s).devices ≡ survivors t destroyed 0 s.devices
unfolding clean
devices-clean t destroyed s n =
    devices-end_revocation (record s {
      devices = destroy_cleanup_candidates destroyed (cleanup_requests t 0 s.devices) s.devices;
    })
    ∙ destroy_cleanup_candidates-survivors t destroyed 0 s.devices n

-- A device that may stay: its owner lives, and no reason to revoke it is there.
abbrev pub may_stay : CleanupTests → ℕ → DeviceRecord → Bool
may_stay t i d =
    not (t.owner_gone i)
    && (if d.github_actions_evaluation then not t.evaluation_expired else not t.revoke_licensed)

abbrev pub AllMayStay : CleanupTests → Devices → Type 0
AllMayStay t [] = Unit
AllMayStay t ((i, d) ∷ ds) = (may_stay t i d ≡ true) × AllMayStay t ds

survivors-AllMayStay :
    (t : CleanupTests) (kept : ℕ) (ds : Devices) → AllMayStay t (survivors t (λ _. true) kept ds)
unfolding should_clean broker_device_should_be_revoked
survivors-AllMayStay t kept [] = tt
survivors-AllMayStay t kept ((i, d) ∷ ds) =
    let asked = should_clean t kept i d in
    let k = if asked || d.github_actions_evaluation then kept else kept + 1 in
    if_elim (AllMayStay t) (asked && true) (λ _. survivors-AllMayStay t k ds)
      (λ e. (ground (arith, e), survivors-AllMayStay t k ds))

-- How many licensed devices may be left.
abbrev pub allowance : CleanupTests → ℕ → ℕ → ℕ
allowance t kept total =
    if t.revoke_licensed then 0 else if t.limit_licensed then 1 - kept else total

count_licensed-survivors :
    (t : CleanupTests) (kept : ℕ) (ds : Devices)
    → count_licensed (survivors t (λ _. true) kept ds) ≤ allowance t kept (count_licensed ds)
unfolding count_licensed should_clean license_outage_gamepad_should_be_revoked
    broker_device_should_be_revoked
count_licensed-survivors t kept [] = ground arith
count_licensed-survivors t kept ((i, d) ∷ ds) =
    ground (arith, count_licensed-survivors t kept ds, count_licensed-survivors t (kept + 1) ds)

-- A clean-up by tests, where the driver destroys what it is asked to destroy.
pub clean-AllMayStay :
    (t : CleanupTests) (s : BrokerState)
    → Distinct s.devices
    → AllMayStay t (clean t (λ _. true) s).devices
      × (count_licensed (clean t (λ _. true) s).devices ≤ allowance t 0 (count_licensed s.devices))
clean-AllMayStay t s n =
    rw (devices-clean t (λ _. true) s n)
      (survivors-AllMayStay t 0 s.devices, count_licensed-survivors t 0 s.devices)
