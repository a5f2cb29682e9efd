-- ===== src/Broker/Validation.antt =====
-- The operations on the licence of `BrokerState`,
-- src/platform/windows/broker/libvirtualhid_broker.cpp: activation, validation and deactivation by
-- the licence service, whose answers are arguments, and the times of the next validation.
pub mod Outcome
use plank_libvirtualhid.Common.{
  ℕ, ◌+◌, Bool, true, false, not, ◌&&◌, Option, none, some, List, [], ◌∷◌, is_empty, leb, ◌==◌,
  ◌!=◌, if◌then◌else◌, Text, bytes, same_text,
}
use plank_libvirtualhid.Broker.License.{
  PolarLicenseState, LicenseBody, license_allowed, license_state_from_json,
  TrustedLicenseTimeResult, trusted, license_is_invalid, no_trusted_time,
  accept_trusted_license_time,
}
use plank_libvirtualhid.Broker.Session.{
  StatusCode, success, invalid_argument, backend_failure, license_invalid, network_unavailable,
  activation_limit_reached, is_success, BrokerState, Clocks, granted,
}

-- A day and a minute, in nanoseconds.
abbrev pub license_validation_interval : ℕ
license_validation_interval = 86400000000000

abbrev pub license_validation_retry_interval : ℕ
license_validation_retry_interval = 60000000000

-- The answer of the licence service; the body is `none` where it is not JSON, or where an
-- activation has no object `license_key`. `id` is the body's own id.
pub record ApiResult : Type 0 where
  pub transport_ok : Bool
  pub http_status : ℕ
  pub body : Option LicenseBody
  pub id : Text
  pub server_time : Option ℕ

unfoldable pub mark_license_validation_unavailable : ℕ → BrokerState → BrokerState
mark_license_validation_unavailable now s = elim s.license_state [
  | none ↦ s
  | some l ↦ record s {
    license_online_confirmed = false;
    license_validation_unavailable_since = elim s.license_validation_unavailable_since [
      | none ↦ some now
      | some since ↦ some since
    ];
  }
]

unfoldable pub invalidate_license : BrokerState → BrokerState
invalidate_license s = record s {
  license_state = none;
  next_license_validation_attempt = none;
  license_online_confirmed = false;
  license_validation_unavailable_since = none;
  revoke_licensed_devices = true;
}

unfoldable pub license_confirmed : PolarLicenseState → BrokerState → BrokerState
license_confirmed l s = record s {
  license_state = some l;
  license_online_confirmed = true;
  license_validation_unavailable_since = none;
}

unfoldable pub unavailable : StatusCode → ℕ → BrokerState → StatusCode × BrokerState
unavailable status now s = (status, mark_license_validation_unavailable now s)

unfoldable pub invalidated : BrokerState → StatusCode × BrokerState
invalidated s = (license_invalid, invalidate_license s)

-- `saved` is what `save_license_state` answers.
unfoldable pub validate_accepted :
    TrustedLicenseTimeResult × PolarLicenseState
    → (saved : Bool) → ℕ
    → BrokerState
    → StatusCode × BrokerState
validate_accepted (license_is_invalid, l) saved now s = invalidated s
validate_accepted (no_trusted_time, l) saved now s = unavailable backend_failure now s
validate_accepted (trusted, l) saved now s =
    if saved then (success, license_confirmed l s) else unavailable backend_failure now s

unfoldable pub validate_state :
    (activation_id : Text)
    → PolarLicenseState
    → ApiResult
    → (saved : Bool) → Clocks
    → BrokerState
    → StatusCode × BrokerState
validate_state activation_id l api saved now s =
    if not (same_text l.activation_id activation_id)
    then invalidated s
    else if not (same_text l.license_status granted)
    then invalidated s
    else if not (license_allowed l)
    then invalidated s
    else validate_accepted
        (accept_trusted_license_time api.server_time s.boot_session_marker now.uptime l) saved
        now.steady s

unfoldable pub validate_body :
    Option LicenseBody
    → PolarLicenseState
    → ApiResult
    → (saved : Bool) → Clocks
    → BrokerState
    → StatusCode × BrokerState
validate_body none state api saved now s = unavailable backend_failure now.steady s
validate_body (some body) state api saved now s =
    validate_state state.activation_id (license_state_from_json body state.license_key []) api saved
      now s

unfoldable pub validate_license :
    PolarLicenseState → ApiResult → (saved : Bool) → Clocks → BrokerState → StatusCode × BrokerState
validate_license state api saved now s =
    if not api.transport_ok
    then unavailable network_unavailable now.steady s
    else if api.http_status == 404
    then invalidated s
    else if api.http_status != 200
    then unavailable backend_failure now.steady s
    else validate_body api.body state api saved now s

unfoldable pub validate_saved_license :
    Option PolarLicenseState
    → ApiResult
    → (saved : Bool) → Clocks
    → BrokerState
    → StatusCode × BrokerState
validate_saved_license none api saved now s = (license_invalid, s)
validate_saved_license (some state) api saved now s = validate_license state api saved now s

unfoldable pub schedule_license_validation : ℕ → (immediately : Bool) → BrokerState → BrokerState
schedule_license_validation now immediately s = record s {
  next_license_validation_attempt = elim s.license_state [
    | none ↦ none
    | some l ↦ some (if immediately then now else now + license_validation_interval)
  ];
}

unfoldable pub schedule_after_license_validation : ℕ → StatusCode × BrokerState → BrokerState
schedule_after_license_validation now (status, s) = record s {
  next_license_validation_attempt = elim s.license_state [
    | none ↦ none
    | some l ↦ some (
        now
        + (if is_success status
            then license_validation_interval
            else license_validation_retry_interval))
  ];
}

unfoldable pub attempt_due : Option ℕ → ℕ → Bool
attempt_due none now = false
attempt_due (some next) now = leb next now

unfoldable pub validation_due : Option PolarLicenseState → Option ℕ → ℕ → Bool
validation_due none next now = false
validation_due (some l) next now = attempt_due next now

-- One turn of `license_validation_loop`; the validation ends at the second reading of the clocks.
unfoldable pub license_validation_turn :
    ApiResult → (saved : Bool) → (now later : Clocks) → BrokerState → BrokerState
license_validation_turn api saved now later s =
    if validation_due s.license_state s.next_license_validation_attempt now.steady
    then schedule_after_license_validation later.steady (
        validate_saved_license s.license_state api saved later (record s {
          next_license_validation_attempt = some (now.steady + license_validation_retry_interval);
        }))
    else s

unfoldable pub handle_validate_license :
    (valid : Bool) → ApiResult → (saved : Bool) → Clocks → BrokerState → StatusCode × BrokerState
handle_validate_license valid api saved now s =
    if not valid
    then (invalid_argument, s)
    else let r = validate_saved_license s.license_state api saved now s in
      (r.0, schedule_after_license_validation now.steady r)

unfoldable pub activation_failure_status : ℕ → StatusCode
activation_failure_status http_status =
    if http_status == 403
    then activation_limit_reached
    else if http_status == 404
    then license_invalid
    else if http_status == 422
    then license_invalid
    else backend_failure

unfoldable pub activate_accepted :
    TrustedLicenseTimeResult × PolarLicenseState
    → (saved : Bool) → ℕ
    → BrokerState
    → StatusCode × BrokerState
activate_accepted (license_is_invalid, l) saved now s = (license_invalid, s)
activate_accepted (no_trusted_time, l) saved now s = (backend_failure, s)
activate_accepted (trusted, l) saved now s =
    if saved
    then (success, schedule_license_validation now false (license_confirmed l s))
    else (backend_failure, s)

unfoldable pub activate_state :
    PolarLicenseState → ApiResult → (saved : Bool) → Clocks → BrokerState → StatusCode × BrokerState
activate_state l api saved now s =
    if not (same_text l.license_status granted)
    then (license_invalid, s)
    else if not (license_allowed l)
    then (license_invalid, s)
    else activate_accepted
        (accept_trusted_license_time api.server_time s.boot_session_marker now.uptime l) saved
        now.steady s

unfoldable pub activate_body :
    Option LicenseBody
    → (license_key : Text) → ApiResult
    → (saved : Bool) → Clocks
    → BrokerState
    → StatusCode × BrokerState
activate_body none license_key api saved now s = (backend_failure, s)
activate_body (some body) license_key api saved now s =
    if is_empty api.id
    then (backend_failure, s)
    else activate_state (license_state_from_json body license_key api.id) api saved now s

unfoldable pub handle_activate_license :
    (valid : Bool)
    → (license_key : Text) → ApiResult
    → (saved : Bool) → Clocks
    → BrokerState
    → StatusCode × BrokerState
handle_activate_license valid license_key api saved now s =
    if not valid
    then (invalid_argument, s)
    else if is_empty license_key
    then (invalid_argument, s)
    else if not api.transport_ok
    then (network_unavailable, s)
    else if api.http_status != 200
    then (activation_failure_status api.http_status, s)
    else activate_body api.body license_key api saved now s

unfoldable pub deactivate : ApiResult → BrokerState → StatusCode × BrokerState
deactivate api s =
    if not api.transport_ok
    then (network_unavailable, s)
    else if api.http_status == 204
    then (success, invalidate_license s)
    else if api.http_status == 404
    then (success, invalidate_license s)
    else (backend_failure, s)

unfoldable pub handle_deactivate_license :
    (valid : Bool) → ApiResult → BrokerState → StatusCode × BrokerState
handle_deactivate_license valid api s =
    if not valid
    then (invalid_argument, s)
    else elim s.license_state [ none ↦ (success, s) | some l ↦ deactivate api s ]
