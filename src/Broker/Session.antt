-- ===== src/Broker/Session.antt =====
-- `BrokerState` of src/platform/windows/broker/libvirtualhid_broker.cpp. The answers of the system,
-- of the driver and of the licence service are arguments. The texts of the messages are left out.
use plank_libvirtualhid.Common.{
  ℕ, ◌+◌, Bool, true, false, not, ◌&&◌, ◌||◌, Option, none, some, List, [], ◌∷◌, is_empty, ltb,
  ◌==◌, if◌then◌else◌, Text, bytes, same_text,
}
use plank_libvirtualhid.Broker.Clock.{
  license_monotonic_calendar_timestamp, license_validation_is_current,
  unvalidated_gamepad_creation_allowed, evaluation_active,
}
use plank_libvirtualhid.Broker.License.{
  PolarLicenseState, PolarBenefit, polar_benefit, license_allowed,
}

-- `LvhWindowsBrokerStatusCode`
pub data StatusCode : Type 0 where
  success invalid_argument unsupported_profile device_not_found : StatusCode
  backend_unavailable backend_failure license_required license_invalid : StatusCode
  activation_limit_reached network_unavailable : StatusCode

abbrev pub is_success : StatusCode → Bool
is_success success = true
is_success _ = false

-- `BrokerState::DeviceRecord`; the process is known by its id.
pub record DeviceRecord : Type 0 where
  pub session_token : List ℕ
  pub owner_process_id : ℕ
  pub github_actions_evaluation : Bool

-- The devices are a map, which is ordered by the device id.
abbrev pub Devices : Type 0
Devices = List (ℕ × DeviceRecord)

pub record BrokerState : Type 0 where
  pub github_actions : Bool
  pub boot_session_marker : Text
  pub devices : Devices
  pub license_state : Option PolarLicenseState
  pub next_license_validation_attempt : Option ℕ
  pub license_validation_unavailable_since : Option ℕ
  pub evaluation_started_at : Option ℕ
  pub license_online_confirmed : Bool
  pub revoke_licensed_devices : Bool
  pub driver_state_reconciled : Bool

-- What the three clocks show: milliseconds since the system started, and nanoseconds of the steady
-- clock and of the wall clock.
pub record Clocks : Type 0 where
  pub uptime : ℕ
  pub steady : ℕ
  pub wall : ℕ

-- `std::map`'s `find`, `try_emplace` and `erase`.
unfoldable pub find_device : ℕ → Devices → Option DeviceRecord
find_device id [] = none
find_device id ((i, d) ∷ ds) = if i == id then some d else find_device id ds

unfoldable pub try_emplace : ℕ → DeviceRecord → Devices → Devices
try_emplace id device [] = (id, device) ∷ []
try_emplace id device ((i, d) ∷ ds) =
    if i == id
    then (i, d) ∷ ds
    else if ltb id i
    then (id, device) ∷ (i, d) ∷ ds
    else (i, d) ∷ try_emplace id device ds

unfoldable pub erase_device : ℕ → Devices → Devices
erase_device id [] = []
erase_device id ((i, d) ∷ ds) = if i == id then ds else (i, d) ∷ erase_device id ds

unfoldable pub count_licensed : Devices → ℕ
count_licensed [] = 0
count_licensed ((i, d) ∷ ds) = (if d.github_actions_evaluation then 0 else 1) + count_licensed ds

unfoldable pub effective_timestamp_of : PolarLicenseState → Clocks → BrokerState → Option ℕ
effective_timestamp_of l now s =
    license_monotonic_calendar_timestamp l.validated_at l.validated_uptime_ms now.uptime
      (not (is_empty s.boot_session_marker) && same_text l.boot_marker s.boot_session_marker)

unfoldable pub current_at : Option ℕ → PolarLicenseState → Bool
current_at none l = false
current_at (some timestamp) l = license_validation_is_current l.validated_at timestamp

abbrev pub granted : Text
granted = bytes "granted"

-- `license_authorization_is_current_locked` for a licence that is there, with its benefit.
unfoldable pub authorization_of :
    Option PolarBenefit → PolarLicenseState → Clocks → BrokerState → Bool
authorization_of none l now s = false
authorization_of (some benefit) l now s =
    if not benefit.subscription_backed then true else current_at (effective_timestamp_of l now s) l

unfoldable pub license_authorization_is_current : PolarLicenseState → Clocks → BrokerState → Bool
license_authorization_is_current l now s =
    same_text l.license_status granted && authorization_of (polar_benefit l.benefit_id) l now s

unfoldable pub elapsed_at : Option ℕ → PolarLicenseState → Bool
elapsed_at none l = false
elapsed_at (some timestamp) l = not (license_validation_is_current l.validated_at timestamp)

unfoldable pub validation_elapsed_of :
    Option PolarBenefit → PolarLicenseState → Clocks → BrokerState → Bool
validation_elapsed_of none l now s = false
validation_elapsed_of (some benefit) l now s =
    benefit.subscription_backed && elapsed_at (effective_timestamp_of l now s) l

unfoldable pub subscription_validation_has_elapsed :
    Option PolarLicenseState → Clocks → BrokerState → Bool
subscription_validation_has_elapsed none now s = false
subscription_validation_has_elapsed (some l) now s =
    validation_elapsed_of (polar_benefit l.benefit_id) l now s

unfoldable pub license_is_active : Option PolarLicenseState → Clocks → BrokerState → Bool
license_is_active none now s = false
license_is_active (some l) now s = license_allowed l && license_authorization_is_current l now s

-- `reset` is what `reset_devices` answers.
unfoldable pub reconcile_driver_state :
    (reset : StatusCode) → BrokerState → StatusCode × BrokerState
reconcile_driver_state reset s =
    if s.driver_state_reconciled
    then (success, s)
    else if is_success reset
    then (success, record s { devices = []; driver_state_reconciled = true })
    else (reset, s)

-- The evaluation window that counts, once it is there.
unfoldable pub authorize_evaluation : ℕ → ℕ → BrokerState → (StatusCode × Bool) × BrokerState
authorize_evaluation started_at now s =
    if evaluation_active started_at now
    then ((success, true), s)
    else ((license_required, false), s)

unfoldable pub authorize_unlicensed :
    Option ℕ → (saved : Bool) → ℕ → BrokerState → (StatusCode × Bool) × BrokerState
authorize_unlicensed (some started_at) saved now s = authorize_evaluation started_at now s
authorize_unlicensed none saved now s =
    if saved
    then authorize_evaluation now now (record s { evaluation_started_at = some now })
    else ((backend_failure, false), s)

unfoldable pub authorize_licensed : PolarLicenseState → Clocks → BrokerState → StatusCode
authorize_licensed l now s =
    if not (license_allowed l) || not (license_authorization_is_current l now s)
    then license_invalid
    else if s.license_online_confirmed
    then success
    else if unvalidated_gamepad_creation_allowed (count_licensed s.devices)
    then success
    else network_unavailable

-- `saved` is what `save_github_actions_evaluation_state` answers.
unfoldable pub authorize_gamepad_create :
    Option PolarLicenseState
    → (saved : Bool) → Clocks
    → BrokerState
    → (StatusCode × Bool) × BrokerState
authorize_gamepad_create none saved now s =
    if not s.github_actions
    then ((license_required, false), s)
    else authorize_unlicensed s.evaluation_started_at saved now.wall s
authorize_gamepad_create (some l) saved now s = ((authorize_licensed l now s, false), s)

-- The first part of `handle_create`, up to the authorization: whether the request is valid, and
-- whether the client's process can be opened and its handle duplicated, are arguments.
unfoldable pub create_reconciled :
    (opened duplicated saved : Bool)
    → Clocks
    → StatusCode × BrokerState
    → (StatusCode × Bool) × BrokerState
create_reconciled opened duplicated saved now (status, s) =
    if not (is_success status)
    then ((status, false), s)
    else if not opened
    then ((backend_failure, false), s)
    else if not duplicated
    then ((invalid_argument, false), s)
    else authorize_gamepad_create s.license_state saved now s

unfoldable pub begin_create :
    (valid : Bool) (reset : StatusCode) (opened duplicated saved : Bool)
    → Clocks
    → BrokerState
    → (StatusCode × Bool) × BrokerState
begin_create valid reset opened duplicated saved now s =
    if not valid
    then ((invalid_argument, false), s)
    else create_reconciled opened duplicated saved now (reconcile_driver_state reset s)

-- What the driver answers to the creation of a gamepad.
pub record DriverGamepad : Type 0 where
  pub status : StatusCode
  pub driver_device_id : ℕ
  pub session_token : List ℕ

-- The rest of `handle_create`, for a creation that was authorized.
unfoldable pub finish_create :
    (evaluation : Bool) → ℕ → DriverGamepad → BrokerState → StatusCode × BrokerState
finish_create evaluation client_process_id gamepad s =
    if not (is_success gamepad.status) then (gamepad.status, s) else (
      success,
      record s {
        devices =
            try_emplace gamepad.driver_device_id
              (record {
                session_token = gamepad.session_token;
                owner_process_id = client_process_id;
                github_actions_evaluation = evaluation;
              })
              s.devices;
      },
    )

-- `destroyed` is what the driver answers.
unfoldable pub destroy_found :
    Option DeviceRecord
    → ℕ
    → List ℕ
    → (destroyed : StatusCode) → BrokerState
    → StatusCode × BrokerState
destroy_found none id token destroyed s = (device_not_found, s)
destroy_found (some device) id token destroyed s =
    if not (same_text device.session_token token)
    then (invalid_argument, s)
    else if not (is_success destroyed)
    then (destroyed, s)
    else (success, record s { devices = erase_device id s.devices })

unfoldable pub handle_destroy :
    (valid : Bool) → ℕ → List ℕ → (destroyed : StatusCode) → BrokerState → StatusCode × BrokerState
handle_destroy valid id token destroyed s =
    if not valid
    then (invalid_argument, s)
    else destroy_found (find_device id s.devices) id token destroyed s
