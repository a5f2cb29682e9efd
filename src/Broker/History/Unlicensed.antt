-- ===== src/Broker/History/Unlicensed.antt =====
-- What holds of a broker without a licence, and that a clean-up keeps it.
use plank_libvirtualhid.Common.{
  ℕ, ◌≤◌, ◌≡◌, ◌≢◌, ◌⊎◌, inl, inr, refl, Bool, true, false, ◌&&◌, Option, none, some, List, [], ◌∷◌,
  ◌==◌, if_elim, arith,
}
use plank_libvirtualhid.Broker.Session.{
  StatusCode, is_success, DeviceRecord, Devices, BrokerState, Clocks, find_device, try_emplace,
  erase_device, count_licensed, reconcile_driver_state, subscription_validation_has_elapsed,
}
use plank_libvirtualhid.Broker.Cleanup.{
  CleanupTests, cleanup_requests, forget_found, destroy_cleanup_candidates, note_elapsed,
  end_revocation, clean, clean_noted, clean_reconciled, cleanup_devices, cleanup_tests,
}

-- The state of a broker that has no licence.
pub record IsUnlicensed (s : BrokerState) (creating : Option Bool) : Type 0 where
  pub not_confirmed : s.license_online_confirmed ≡ false
  pub no_outage : s.license_validation_unavailable_since ≡ none
  pub no_attempt : s.next_license_validation_attempt ≡ none
  -- The licensed gamepads are about to be revoked, or there is none and none is being created.
  pub revoked :
      (s.revoke_licensed_devices ≡ true)
      ⊎ ((count_licensed s.devices ≡ 0) × (creating ≢ some false))

abbrev pub IsGuarded : BrokerState → Option Bool → Type 0
IsGuarded s creating = s.license_state ≡ none → IsUnlicensed s creating

pub count_licensed-try_emplace :
    (id : ℕ) (d : DeviceRecord) (ds : Devices)
    → d.github_actions_evaluation ≡ true
    → count_licensed (try_emplace id d ds) ≡ count_licensed ds
unfolding count_licensed try_emplace
count_licensed-try_emplace id d [] e = ground arith
count_licensed-try_emplace id d ((i, c) ∷ ds) e =
    ground (arith, count_licensed-try_emplace id d ds e)

pub count_licensed-erase_device :
    (id : ℕ) (ds : Devices) → count_licensed (erase_device id ds) ≤ count_licensed ds
unfolding count_licensed erase_device
count_licensed-erase_device id [] = omega arith
count_licensed-erase_device id ((i, c) ∷ ds) = ground (arith, count_licensed-erase_device id ds)

pub count_licensed-forget_found :
    (o : Option DeviceRecord) (id : ℕ) (token : List ℕ) (ds : Devices)
    → count_licensed (forget_found o id token ds) ≤ count_licensed ds
unfolding forget_found
count_licensed-forget_found none id token ds = omega arith
count_licensed-forget_found (some d) id token ds = ground (arith, count_licensed-erase_device id ds)

pub count_licensed-destroy_cleanup_candidates :
    (destroyed : ℕ → Bool) (requests ds : Devices)
    → count_licensed (destroy_cleanup_candidates destroyed requests ds) ≤ count_licensed ds
unfolding destroy_cleanup_candidates
count_licensed-destroy_cleanup_candidates destroyed [] ds = omega arith
count_licensed-destroy_cleanup_candidates destroyed ((i, d) ∷ rest) ds = ground (
  arith,
  count_licensed-forget_found (find_device i ds) i d.session_token ds,
  count_licensed-destroy_cleanup_candidates destroyed rest ds,
  count_licensed-destroy_cleanup_candidates destroyed rest
      (forget_found (find_device i ds) i d.session_token ds),
)

-- What is said of a broker without a licence stays true of one with other devices, if it does for
-- its revocation.
pub IsUnlicensed-update :
    (s : BrokerState) (ds : Devices) (revoke reconciled : Bool) (creating creating' : Option Bool)
    → (revoke ≡ true) ⊎ ((count_licensed ds ≡ 0) × (creating' ≢ some false))
    → IsUnlicensed s creating
    → IsUnlicensed
        (record s {
          devices = ds;
          revoke_licensed_devices = revoke;
          driver_state_reconciled = reconciled;
        })
        creating'
IsUnlicensed-update s ds revoke reconciled creating creating' r u = record {
  not_confirmed = u.not_confirmed;
  no_outage = u.no_outage;
  no_attempt = u.no_attempt;
  revoked = r;
}

-- Operations that leave the licence's own fields and take away devices at most.
pub shrink-IsGuarded :
    (s : BrokerState) (ds : Devices) (creating : Option Bool)
    → count_licensed ds ≤ count_licensed s.devices
    → IsGuarded s creating
    → IsGuarded (record s { devices = ds }) creating
shrink-IsGuarded s ds creating le g e =
    IsUnlicensed-update s ds s.revoke_licensed_devices s.driver_state_reconciled creating creating
      (ground (arith, (g e).revoked, le)) (g e)

pub reconcile-IsGuarded :
    (reset : StatusCode) (s : BrokerState) (creating : Option Bool)
    → IsGuarded s creating
    → IsGuarded (reconcile_driver_state reset s).1 creating
unfolding reconcile_driver_state count_licensed
reconcile-IsGuarded reset s creating g =
    let P : StatusCode × BrokerState → Type 0 = λ r. IsGuarded r.1 creating in
    if_elim P s.driver_state_reconciled (λ _. g)
      (λ _.
        if_elim P (is_success reset)
          (λ _ n.
            IsUnlicensed-update s [] s.revoke_licensed_devices true creating creating
              (ground (arith, (g n).revoked)) (g n))
          (λ _. g))

pub end_revocation-IsGuarded :
    (s : BrokerState) → IsGuarded s none → IsGuarded (end_revocation s) none
unfolding end_revocation
end_revocation-IsGuarded s g =
    if_elim (λ t. IsGuarded t none) (s.revoke_licensed_devices && count_licensed s.devices == 0)
      (λ c n.
        IsUnlicensed-update s s.devices false s.driver_state_reconciled none none
          (inr (ground (arith, c), λ e. cc)) (g n))
      (λ _. g)

pub clean-IsGuarded :
    (t : CleanupTests) (destroyed : ℕ → Bool) (s : BrokerState)
    → IsGuarded s none
    → IsGuarded (clean t destroyed s) none
unfolding clean
clean-IsGuarded t destroyed s g =
    let ds = destroy_cleanup_candidates destroyed (cleanup_requests t 0 s.devices) s.devices in
    end_revocation-IsGuarded (record s { devices = ds })
      (shrink-IsGuarded s ds none
        (count_licensed-destroy_cleanup_candidates destroyed (cleanup_requests t 0 s.devices)
          s.devices)
        g)

pub note_elapsed-IsGuarded :
    (now : Clocks) (s : BrokerState) → IsGuarded s none → IsGuarded (note_elapsed now s) none
unfolding note_elapsed
note_elapsed-IsGuarded now s g =
    if_elim (λ t. IsGuarded t none) (subscription_validation_has_elapsed s.license_state now s)
      (λ _ n.
        IsUnlicensed-update s s.devices true s.driver_state_reconciled none none (inl refl) (g n))
      (λ _. g)

pub cleanup-IsGuarded :
    (reset : StatusCode) (now : Clocks) (owner_gone destroyed : ℕ → Bool) (s : BrokerState)
    → IsGuarded s none
    → IsGuarded (cleanup_devices reset now owner_gone destroyed s) none
unfolding cleanup_devices clean_reconciled clean_noted
cleanup-IsGuarded reset now owner_gone destroyed s g =
    let r = reconcile_driver_state reset s in
    let h = reconcile-IsGuarded reset s none g in
    if_elim (λ t. IsGuarded t none) (is_success r.0)
      (λ _.
        clean-IsGuarded (cleanup_tests now owner_gone (note_elapsed now r.1)) destroyed
          (note_elapsed now r.1) (note_elapsed-IsGuarded now r.1 h))
      (λ _. h)
