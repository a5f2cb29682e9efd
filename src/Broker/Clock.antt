-- ===== src/Broker/Clock.antt =====
-- The clocks of the licence in src/platform/windows/broker/libvirtualhid_broker.cpp: Polar's time,
-- in seconds, advanced by the uptime of the machine, in milliseconds; and the evaluation window of
-- src/platform/windows/shared/lvh_windows_github_actions_evaluation.hpp, in nanoseconds.
use plank_libvirtualhid.Common.{
  ℕ, ◌+◌, ◌-◌, ◌/◌, ◌<◌, ◌≤◌, ◌≡◌, ◌≢◌, ◌↔◌, Bool, true, false, not, ◌&&◌, ◌||◌, Option, none, some,
  ltb, leb, ◌==◌, ◌!=◌, if◌then◌else◌, arith,
}

-- `std::numeric_limits<std::uint64_t>::max()`
abbrev pub uint64_max : ℕ
uint64_max = 18446744073709551615

unfoldable pub license_monotonic_calendar_timestamp : ℕ → ℕ → ℕ → Bool → Option ℕ
license_monotonic_calendar_timestamp calendar_anchor uptime_anchor current_uptime
      same_boot_session =
    if not same_boot_session || calendar_anchor == 0 || ltb current_uptime uptime_anchor
    then none
    else let elapsed = (current_uptime - uptime_anchor) / 1000 in
      if ltb (uint64_max - elapsed) calendar_anchor
      then some uint64_max
      else some (calendar_anchor + elapsed)

-- A day and an hour, in seconds.
abbrev pub subscription_validation_max_age : ℕ
subscription_validation_max_age = 90000

unfoldable pub license_validation_is_current : ℕ → ℕ → Bool
license_validation_is_current validated_at effective_timestamp =
    validated_at != 0
    && leb validated_at effective_timestamp
    && ltb (effective_timestamp - validated_at) subscription_validation_max_age

abbrev pub unvalidated_active_gamepad_limit : ℕ
unvalidated_active_gamepad_limit = 1

unfoldable pub unvalidated_gamepad_creation_allowed : ℕ → Bool
unvalidated_gamepad_creation_allowed active_licensed_gamepads =
    ltb active_licensed_gamepads unvalidated_active_gamepad_limit

-- An hour, in nanoseconds.
abbrev pub license_outage_device_retention : ℕ
license_outage_device_retention = 3600000000000

unfoldable pub license_outage_retention_elapsed : ℕ → Bool
license_outage_retention_elapsed elapsed = leb license_outage_device_retention elapsed

unfoldable pub license_outage_gamepad_should_be_revoked : (evaluation limit : Bool) → ℕ → Bool
license_outage_gamepad_should_be_revoked evaluation limit kept =
    limit && not evaluation && leb unvalidated_active_gamepad_limit kept

unfoldable pub broker_device_should_be_revoked : (evaluation expired revoke : Bool) → Bool
broker_device_should_be_revoked evaluation expired revoke =
    (expired && evaluation) || (revoke && not evaluation)

-- Five minutes.
abbrev pub evaluation_duration : ℕ
evaluation_duration = 300000000000

unfoldable pub evaluation_active : ℕ → ℕ → Bool
evaluation_active started_at now = leb started_at now && ltb now (started_at + evaluation_duration)

-- The timestamp that an anchor and an uptime give, if it can be had, and whether the validation is
-- current then.
unfoldable pub current_after : Option ℕ → ℕ → Bool
current_after none validated_at = false
current_after (some effective_timestamp) validated_at =
    license_validation_is_current validated_at effective_timestamp

-- In the boot session of a validation, at an uptime not before it, the validation is current for
-- exactly 25 hours of uptime, unless Polar's time comes so close to the end of 64 bits that it
-- stops there; and in another session, or with an uptime that lies before it, it is not.
pub current_after_lem :
    (validated_at uptime now : ℕ) (same_boot_session : Bool)
    → validated_at ≢ 0
    → validated_at + 90000 ≤ uint64_max
    → (current_after
          (license_monotonic_calendar_timestamp validated_at uptime now same_boot_session)
          validated_at
        ≡ true)
      ↔ ((same_boot_session ≡ true) × (uptime ≤ now) × (now < uptime + 90000000))
unfolding license_monotonic_calendar_timestamp current_after license_validation_is_current
current_after_lem validated_at uptime now same_boot_session nz small = ground arith
