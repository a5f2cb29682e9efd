-- ===== src/Broker/Tests.antt =====
-- The string checks' theorems at arrays of eight characters.
use plank_libvirtualhid.Common.{◌↔◌, ◌+◌, ◌≤◌, none, some, bytes}
use plank_libvirtualhid.Broker.Clock.{
  license_monotonic_calendar_timestamp, current_after, current_after_lem,
}
use plank_libvirtualhid.Broker.License.{
  PolarLicenseState, no_license, polar_organization_id, lifetime,
}
use plank_libvirtualhid.Broker.Session.{
  success, backend_failure, BrokerState, Clocks, Devices, license_is_active, reconcile_driver_state,
  begin_create, create_reconciled, authorize_gamepad_create, authorize_unlicensed,
  authorize_evaluation,
}
use plank_libvirtualhid.Broker.Clock.{evaluation_active}
use plank_libvirtualhid.Broker.Status.{licensed, fill_license_status, fill_license_status_lem}
use plank_libvirtualhid.Broker.Entitled.{IsEntitled, authorize-IsEntitled}
use plank_libvirtualhid.Broker.LicenseText.{serialize_license_state, deserialize_license_state}
use plank_libvirtualhid.Broker.LicenseText.RoundTrip.{deserialize_license_state-serialize}
use plank_libvirtualhid.Broker.Cleanup.{CleanupTests, clean, cleanup_devices}
use plank_libvirtualhid.Broker.Cleanup.Reasons.{IsCleaned, cleanup_devices-IsCleaned}
use plank_libvirtualhid.Broker.Cleanup.Survivors.{survivors, devices-clean}
use plank_libvirtualhid.Broker.Validation.{ApiResult, validate_license, schedule_license_validation}
use plank_libvirtualhid.Broker.Validation.Outcome.{Outcome, validate_license-Outcome}
use plank_libvirtualhid.Broker.History.{loaded, construct, World, begun, begins, here, next}
use plank_libvirtualhid.Broker.History.Unlicensed.{IsUnlicensed}
use plank_libvirtualhid.Broker.History.Guard.{Reach-IsGuarded}
use plank_libvirtualhid.Common.{
  ℕ, ◌<◌, ◌≡◌, inl, refl, true, false, ◌&&◌, List, [], ◌∷◌, replicate, ◌==◌, arith,
}
use plank_libvirtualhid.Broker.Strings.{
  valid_c_string, valid_sized_c_string, all_zero, find_zero, valid_sized_c_string_lem,
}

abbrev pad_name : List ℕ
pad_name = 80 ∷ 97 ∷ 100 ∷ replicate 5 0

hidden_tail : valid_sized_c_string (80 ∷ 0 ∷ 66 ∷ 0 ∷ []) 1 ≡ false
unfolding valid_sized_c_string find_zero all_zero
hidden_tail = refl

accepted : valid_sized_c_string pad_name 3 ≡ true
unfolding valid_sized_c_string find_zero all_zero
accepted = refl

valid_sized_c_string_lem_example :
    valid_sized_c_string pad_name 3 ≡ (find_zero pad_name == 3 && valid_c_string pad_name true)
valid_sized_c_string_lem_example = valid_sized_c_string_lem pad_name 3

current_after_lem_example :
    (current_after (license_monotonic_calendar_timestamp 1000 5 80000 true) 1000 ≡ true)
    ↔ ((true ≡ true) × (5 ≤ 80000) × (80000 < 5 + 90000000))
current_after_lem_example = current_after_lem 1000 5 80000 true (ground arith) (ground arith)

abbrev kept_license : PolarLicenseState
kept_license = record no_license {
  provider = bytes "polar";
  license_key = bytes "KEY-1";
  activation_id = bytes "a1";
  license_status = bytes "granted";
  organization_id = polar_organization_id;
  benefit_id = lifetime.id;
  activation_limit = 3;
  validated_at = 1700000000;
  boot_marker = bytes "boot";
  validated_uptime_ms = 12345;
}

deserialize_license_state-serialize_example :
    deserialize_license_state (serialize_license_state kept_license) ≡ kept_license
deserialize_license_state-serialize_example =
    deserialize_license_state-serialize kept_license (record {
      provider = refl;
      license_key = refl;
      activation_id = refl;
      license_key_id = refl;
      license_status = refl;
      organization_id = refl;
      benefit_id = refl;
      customer_email = refl;
      boot_marker = refl;
      activation_limit = ground arith;
      validated_at = ground arith;
      validated_uptime_ms = ground arith;
    })

abbrev noon : Clocks
noon = record { uptime = 20000; steady = 7000; wall = 9000 }

abbrev two_devices : Devices
two_devices =
    (1, record { session_token = 1 ∷ []; owner_process_id = 40; github_actions_evaluation = false })
    ∷ (
      2,
      record { session_token = 2 ∷ []; owner_process_id = 41; github_actions_evaluation = false },
    )
    ∷ []

abbrev with_license : BrokerState
with_license = record (loaded false (bytes "boot") (some kept_license) none) {
  devices = two_devices;
  driver_state_reconciled = true;
}

fill_license_status_lem_example :
    ((fill_license_status noon with_license).state ≡ licensed)
    ↔ (license_is_active (some kept_license) noon with_license ≡ true)
fill_license_status_lem_example = fill_license_status_lem noon with_license

authorize-IsEntitled_example :
    ((authorize_gamepad_create (some kept_license) true noon with_license).0.0 ≡ success)
    ↔ IsEntitled (some kept_license) true noon with_license
authorize-IsEntitled_example = authorize-IsEntitled (some kept_license) true noon with_license

abbrev outage : CleanupTests
outage = record {
  evaluation_expired = false;
  revoke_licensed = false;
  limit_licensed = true;
  owner_gone = λ id. false;
}

devices-clean_example :
    (clean outage (λ i. false) with_license).devices ≡ survivors outage (λ i. false) 0 two_devices
devices-clean_example =
    devices-clean outage (λ i. false) with_license ((ground arith, tt), (tt, tt))

-- Validations have been unavailable since 4000, an hour before.
abbrev cut_off : BrokerState
cut_off = record with_license { license_validation_unavailable_since = some 4000 }

abbrev hour_later : Clocks
hour_later = record { uptime = 3700000; steady = 3600000004000; wall = 9000 }

cleanup_devices-IsCleaned_example :
    IsCleaned hour_later
      (λ i. i == 1)
      cut_off
      (cleanup_devices backend_failure hour_later (λ i. i == 1) (λ i. true) cut_off).devices
cleanup_devices-IsCleaned_example =
    cleanup_devices-IsCleaned backend_failure hour_later (λ i. i == 1) cut_off
      ((ground arith, tt), (tt, tt)) (inl refl)

abbrev not_json : ApiResult
not_json = record {
  transport_ok = true;
  http_status = 200;
  body = none;
  id = [];
  server_time = some 1700000100;
}

validate_license-Outcome_example :
    Outcome kept_license not_json true noon with_license
      (validate_license kept_license not_json true noon with_license)
validate_license-Outcome_example =
    validate_license-Outcome kept_license not_json true noon with_license refl

abbrev unlicensed : World
unlicensed = record {
  broker = construct success 7000 (loaded true (bytes "boot") none none);
  creating = none;
}

abbrev evaluating : World
evaluating = begun (begin_create true success true true true noon unlicensed.broker)

Reach-IsGuarded_example : IsUnlicensed evaluating.broker evaluating.creating
unfolding construct reconcile_driver_state schedule_license_validation begin_create
    create_reconciled authorize_gamepad_create authorize_unlicensed authorize_evaluation
    evaluation_active
Reach-IsGuarded_example =
    Reach-IsGuarded success 7000 true (bytes "boot") none none evaluating
      (next here (begins true success true true true noon refl)) refl
