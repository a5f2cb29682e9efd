-- ===== src/Broker/History/License.antt =====
-- The operations on the licence keep what holds of a broker without one.
use plank_libvirtualhid.Common.{
  ℕ, ◌+◌, ◌≡◌, ◌≢◌, ◌⊎◌, inl, refl, Bool, true, false, not, Option, none, some, List, is_empty,
  ◌==◌, ◌!=◌, if_elim, Text, same_text,
}
use plank_libvirtualhid.Broker.License.{
  PolarLicenseState, LicenseBody, license_allowed, TrustedLicenseTimeResult, trusted,
  license_is_invalid, no_trusted_time, accept_trusted_license_time, license_state_from_json,
}
use plank_libvirtualhid.Broker.Session.{
  StatusCode, success, granted, BrokerState, Clocks, find_device, count_licensed, handle_destroy,
}
use plank_libvirtualhid.Broker.Validation.{
  ApiResult, invalidate_license, license_confirmed, validate_license, validate_saved_license,
  schedule_license_validation, schedule_after_license_validation, validation_due,
  license_validation_retry_interval, license_validation_turn, handle_validate_license,
  activate_accepted, activate_state, activate_body, handle_activate_license, deactivate,
  handle_deactivate_license,
}
use plank_libvirtualhid.Broker.Validation.Outcome.{
  Outcome, confirmed, refused, unreachable, unusable, validate_license-Outcome,
}
use plank_libvirtualhid.Broker.History.Unlicensed.{IsGuarded}
use plank_libvirtualhid.Broker.History.Creating.{destroy_found-IsGuarded}

-- The licence's operations: with a licence afterwards there is nothing to show.
pub invalidate-IsGuarded :
    (s : BrokerState) (creating : Option Bool) → IsGuarded (invalidate_license s) creating
unfolding invalidate_license
invalidate-IsGuarded s creating n = record {
  not_confirmed = refl;
  no_outage = refl;
  no_attempt = refl;
  revoked = inl refl;
}

pub Outcome-IsGuarded :
    (l : PolarLicenseState) (api : ApiResult) (saved : Bool) (now : Clocks) (s : BrokerState)
    (creating : Option Bool) (r : StatusCode × BrokerState)
    → s.license_state ≡ some l
    → Outcome l api saved now s r
    → IsGuarded r.1 creating
unfolding invalidate_license
Outcome-IsGuarded l api saved now s creating r e (confirmed body time a h b f t m v) = λ n. cc
Outcome-IsGuarded l api saved now s creating r e (refused a u) = invalidate-IsGuarded s creating
Outcome-IsGuarded l api saved now s creating r e (unreachable a) = λ n. cc
Outcome-IsGuarded l api saved now s creating r e (unusable a u) = λ n. cc

-- A schedule keeps no attempt without a licence.
pub schedule_after-IsGuarded :
    (now : ℕ) (r : StatusCode × BrokerState) (creating : Option Bool)
    → IsGuarded r.1 creating
    → IsGuarded (schedule_after_license_validation now r) creating
unfolding schedule_after_license_validation
schedule_after-IsGuarded now r creating g n =
    let u = g n in
    record {
      not_confirmed = u.not_confirmed;
      no_outage = u.no_outage;
      no_attempt = rw n refl;
      revoked = u.revoked;
    }

pub schedule-IsGuarded :
    (now : ℕ) (immediately : Bool) (s : BrokerState) (creating : Option Bool)
    → (s.license_state ≡ none
        → (s.license_online_confirmed ≡ false)
          × (s.license_validation_unavailable_since ≡ none)
          × ((s.revoke_licensed_devices ≡ true)
              ⊎ ((count_licensed s.devices ≡ 0) × (creating ≢ some false))))
    → IsGuarded (schedule_license_validation now immediately s) creating
unfolding schedule_license_validation
schedule-IsGuarded now immediately s creating g n =
    let u = g n in
    record { not_confirmed = u.0; no_outage = u.1; no_attempt = rw n refl; revoked = u.2 }

pub validate_saved-IsGuarded :
    (o : Option PolarLicenseState) (api : ApiResult) (saved : Bool) (now : Clocks) (s : BrokerState)
    (creating : Option Bool)
    → s.license_state ≡ o
    → IsGuarded s creating
    → IsGuarded (validate_saved_license o api saved now s).1 creating
unfolding validate_saved_license
validate_saved-IsGuarded none api saved now s creating e g = g
validate_saved-IsGuarded (some l) api saved now s creating e g =
    Outcome-IsGuarded l api saved now s creating (validate_license l api saved now s) e
      (validate_license-Outcome l api saved now s e)

pub due-some :
    (o : Option PolarLicenseState) (attempt : Option ℕ) (now : ℕ)
    → validation_due o attempt now ≡ true
    → o ≢ none
unfolding validation_due
due-some none attempt now h e = cc
due-some (some l) attempt now h e = cc

pub turn-IsGuarded :
    (api : ApiResult) (saved : Bool) (now later : Clocks) (s : BrokerState) (creating : Option Bool)
    → IsGuarded s creating
    → IsGuarded (license_validation_turn api saved now later s) creating
unfolding license_validation_turn
turn-IsGuarded api saved now later s creating g =
    if_elim (λ t. IsGuarded t creating)
      (validation_due s.license_state s.next_license_validation_attempt now.steady)
      (λ due.
        let attempt = record s {
          next_license_validation_attempt = some (now.steady + license_validation_retry_interval);
        } in
        schedule_after-IsGuarded later.steady
          (validate_saved_license s.license_state api saved later attempt) creating
          (validate_saved-IsGuarded s.license_state api saved later attempt creating refl (λ n.
            absurd (due-some s.license_state s.next_license_validation_attempt now.steady due n))))
      (λ _. g)

pub activate_accepted-IsGuarded :
    (r : TrustedLicenseTimeResult × PolarLicenseState) (saved : Bool) (now : ℕ) (s : BrokerState)
    → IsGuarded s none
    → IsGuarded (activate_accepted r saved now s).1 none
unfolding activate_accepted license_confirmed
activate_accepted-IsGuarded (license_is_invalid, l) saved now s g = g
activate_accepted-IsGuarded (no_trusted_time, l) saved now s g = g
activate_accepted-IsGuarded (trusted, l) saved now s g =
    if_elim (λ (r : StatusCode × BrokerState). IsGuarded r.1 none) saved
      (λ _. schedule-IsGuarded now false (license_confirmed l s) none (λ n. cc)) (λ _. g)

pub activate_body-IsGuarded :
    (body : Option LicenseBody) (license_key : Text) (api : ApiResult) (saved : Bool) (now : Clocks)
    (s : BrokerState)
    → IsGuarded s none
    → IsGuarded (activate_body body license_key api saved now s).1 none
unfolding activate_body activate_state
activate_body-IsGuarded none license_key api saved now s g = g
activate_body-IsGuarded (some body) license_key api saved now s g =
    let l = license_state_from_json body license_key api.id in
    let P : StatusCode × BrokerState → Type 0 = λ r. IsGuarded r.1 none in
    if_elim P (is_empty api.id) (λ _. g)
      (λ _.
        if_elim P (not (same_text l.license_status granted)) (λ _. g)
          (λ _.
            if_elim P (not (license_allowed l)) (λ _. g)
              (λ _.
                activate_accepted-IsGuarded
                  (accept_trusted_license_time api.server_time s.boot_session_marker now.uptime l)
                  saved now.steady s g)))

pub activate-IsGuarded :
    (valid : Bool) (license_key : Text) (api : ApiResult) (saved : Bool) (now : Clocks)
    (s : BrokerState)
    → IsGuarded s none
    → IsGuarded (handle_activate_license valid license_key api saved now s).1 none
unfolding handle_activate_license
activate-IsGuarded valid license_key api saved now s g =
    let P : StatusCode × BrokerState → Type 0 = λ r. IsGuarded r.1 none in
    if_elim P (not valid) (λ _. g)
      (λ _.
        if_elim P (is_empty license_key) (λ _. g)
          (λ _.
            if_elim P (not api.transport_ok) (λ _. g)
              (λ _.
                if_elim P (api.http_status != 200) (λ _. g)
                  (λ _. activate_body-IsGuarded api.body license_key api saved now s g))))

pub deactivate-IsGuarded :
    (api : ApiResult) (s : BrokerState) → IsGuarded s none → IsGuarded (deactivate api s).1 none
unfolding deactivate
deactivate-IsGuarded api s g =
    let P : StatusCode × BrokerState → Type 0 = λ r. IsGuarded r.1 none in
    if_elim P (not api.transport_ok) (λ _. g)
      (λ _.
        if_elim P (api.http_status == 204) (λ _. invalidate-IsGuarded s none)
          (λ _. if_elim P (api.http_status == 404) (λ _. invalidate-IsGuarded s none) (λ _. g)))

pub handle_deactivate-IsGuarded :
    (valid : Bool) (api : ApiResult) (s : BrokerState)
    → IsGuarded s none
    → IsGuarded (handle_deactivate_license valid api s).1 none
unfolding handle_deactivate_license
handle_deactivate-IsGuarded valid api s g =
    let P : StatusCode × BrokerState → Type 0 = λ r. IsGuarded r.1 none in
    if_elim P (not valid) (λ _. g)
      (λ _.
        elim s.license_state
          as (λ o. P (elim o [ none ↦ (success, s) | some l ↦ deactivate api s ])) [
            | none ↦ g
            | some l ↦ deactivate-IsGuarded api s g
          ])

pub handle_validate-IsGuarded :
    (valid : Bool) (api : ApiResult) (saved : Bool) (now : Clocks) (s : BrokerState)
    → IsGuarded s none
    → IsGuarded (handle_validate_license valid api saved now s).1 none
unfolding handle_validate_license
handle_validate-IsGuarded valid api saved now s g =
    if_elim (λ (r : StatusCode × BrokerState). IsGuarded r.1 none) (not valid) (λ _. g)
      (λ _.
        schedule_after-IsGuarded now.steady (validate_saved_license s.license_state api saved now s)
          none (validate_saved-IsGuarded s.license_state api saved now s none refl g))

pub handle_destroy-IsGuarded :
    (valid : Bool) (id : ℕ) (token : List ℕ) (destroyed : StatusCode) (s : BrokerState)
    → IsGuarded s none
    → IsGuarded (handle_destroy valid id token destroyed s).1 none
unfolding handle_destroy
handle_destroy-IsGuarded valid id token destroyed s g =
    if_elim (λ (r : StatusCode × BrokerState). IsGuarded r.1 none) (not valid) (λ _. g)
      (λ _. destroy_found-IsGuarded (find_device id s.devices) id token destroyed s g)
