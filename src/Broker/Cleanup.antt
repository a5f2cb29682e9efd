-- ===== src/Broker/Cleanup.antt =====
-- `cleanup_devices` and `destroy_cleanup_candidates` of
-- src/platform/windows/broker/libvirtualhid_broker.cpp.
pub mod Survivors
pub mod Reasons
use plank_libvirtualhid.Common.{
  ℕ, ◌+◌, ◌-◌, Bool, true, false, not, ◌&&◌, ◌||◌, Option, none, some, List, [], ◌∷◌, ◌==◌,
  if◌then◌else◌, same_text,
}
use plank_libvirtualhid.Broker.Clock.{
  license_outage_retention_elapsed, license_outage_gamepad_should_be_revoked,
  broker_device_should_be_revoked, evaluation_active,
}
use plank_libvirtualhid.Broker.Session.{
  StatusCode, is_success, DeviceRecord, Devices, BrokerState, Clocks, find_device, erase_device,
  count_licensed, subscription_validation_has_elapsed, license_is_active, reconcile_driver_state,
}

-- The tests that `cleanup_devices` makes before its loop, and whether the process handle in a
-- device's record says that its owner is gone.
pub record CleanupTests : Type 0 where
  pub evaluation_expired : Bool
  pub revoke_licensed : Bool
  pub limit_licensed : Bool
  pub owner_gone : ℕ → Bool

unfoldable pub should_clean : CleanupTests → ℕ → ℕ → DeviceRecord → Bool
should_clean t kept i d =
    t.owner_gone i
    || broker_device_should_be_revoked d.github_actions_evaluation t.evaluation_expired
        t.revoke_licensed
    || license_outage_gamepad_should_be_revoked d.github_actions_evaluation t.limit_licensed kept

-- The loop over the devices, with the number of licensed devices kept so far.
unfoldable pub cleanup_requests : CleanupTests → ℕ → Devices → Devices
cleanup_requests t kept [] = []
cleanup_requests t kept ((i, d) ∷ ds) =
    if should_clean t kept i d
    then (i, d) ∷ cleanup_requests t kept ds
    else cleanup_requests t (if d.github_actions_evaluation then kept else kept + 1) ds

-- What the `forget` callback does to the map.
unfoldable pub forget_found : Option DeviceRecord → ℕ → List ℕ → Devices → Devices
forget_found none id token ds = ds
forget_found (some d) id token ds =
    if same_text d.session_token token then erase_device id ds else ds

-- `destroyed` tells for each device whether the driver destroys it.
unfoldable pub destroy_cleanup_candidates : (ℕ → Bool) → Devices → Devices → Devices
destroy_cleanup_candidates destroyed [] devices = devices
destroy_cleanup_candidates destroyed ((i, d) ∷ rest) devices =
    destroy_cleanup_candidates destroyed rest (
      if destroyed i
      then forget_found (find_device i devices) i d.session_token devices
      else devices)

unfoldable pub evaluation_expired_at : Option ℕ → ℕ → Bool
evaluation_expired_at none now = false
evaluation_expired_at (some started_at) now = not (evaluation_active started_at now)

unfoldable pub outage_over : Option ℕ → ℕ → Bool
outage_over none now = false
outage_over (some since) now = license_outage_retention_elapsed (now - since)

-- The first block of `cleanup_devices`: a validation that has elapsed revokes the licensed devices.
unfoldable pub note_elapsed : Clocks → BrokerState → BrokerState
note_elapsed now s =
    if subscription_validation_has_elapsed s.license_state now s
    then record s { revoke_licensed_devices = true }
    else s

unfoldable pub cleanup_tests : Clocks → (ℕ → Bool) → BrokerState → CleanupTests
cleanup_tests now owner_gone s = record {
  evaluation_expired =
      s.github_actions
      && evaluation_expired_at s.evaluation_started_at now.wall
      && not (license_is_active s.license_state now s);
  revoke_licensed = s.revoke_licensed_devices;
  limit_licensed = outage_over s.license_validation_unavailable_since now.steady;
  owner_gone = owner_gone;
}

-- The last block: the revocation is over once no licensed device is left.
unfoldable pub end_revocation : BrokerState → BrokerState
end_revocation s =
    if s.revoke_licensed_devices && count_licensed s.devices == 0
    then record s { revoke_licensed_devices = false }
    else s

unfoldable pub clean : CleanupTests → (ℕ → Bool) → BrokerState → BrokerState
clean t destroyed s = end_revocation (record s {
  devices = destroy_cleanup_candidates destroyed (cleanup_requests t 0 s.devices) s.devices;
})

unfoldable pub clean_noted : Clocks → (owner_gone destroyed : ℕ → Bool) → BrokerState → BrokerState
clean_noted now owner_gone destroyed s = clean (cleanup_tests now owner_gone s) destroyed s

unfoldable pub clean_reconciled :
    Clocks → (owner_gone destroyed : ℕ → Bool) → StatusCode × BrokerState → BrokerState
clean_reconciled now owner_gone destroyed (status, s) =
    if is_success status then clean_noted now owner_gone destroyed (note_elapsed now s) else s

unfoldable pub cleanup_devices :
    (reset : StatusCode) → Clocks → (owner_gone destroyed : ℕ → Bool) → BrokerState → BrokerState
cleanup_devices reset now owner_gone destroyed s =
    clean_reconciled now owner_gone destroyed (reconcile_driver_state reset s)
