-- ===== src/Broker/Validation/Outcome.antt =====
-- What a validation of the saved licence can come to.
use plank_libvirtualhid.Common.{
  ℕ, ◌≡◌, ◌≢◌, refl, sym, subst, Bool, true, false, not, Option, none, some, [], is_empty, ◌==◌,
  ◌!=◌, if_elim, Bool-cases, Text, same_text, same_text_eq, same_text_refl, arith, ◌⊎◌, inl, inr,
}
use plank_libvirtualhid.Broker.License.{
  PolarLicenseState, PolarBenefit, LicenseBody, polar_benefit, plan_name_for_benefit,
  license_allowed, license_state_from_json, accept_trusted_license_time, accept_for, validated,
}
use plank_libvirtualhid.Broker.Session.{
  StatusCode, success, backend_failure, license_invalid, network_unavailable, BrokerState, Clocks,
  granted,
}
use plank_libvirtualhid.Broker.Validation.{
  ApiResult, mark_license_validation_unavailable, invalidate_license, license_confirmed,
  unavailable, invalidated, validate_accepted, validate_state, validate_body, validate_license,
}

-- The licence that the service describes is the saved activation, granted and of an allowed plan.
pub record IsFit (state l : PolarLicenseState) : Type 0 where
  pub same_activation : l.activation_id ≡ state.activation_id
  pub is_granted : l.license_status ≡ granted
  pub allowed : license_allowed l ≡ true

-- The answer refuses the licence.
pub data Refuses (state : PolarLicenseState) (api : ApiResult) : Type 0 where
  unknown : api.http_status ≡ 404 → Refuses state api
  unfit :
      (body : LicenseBody)
      → api.http_status ≡ 200
      → api.body ≡ some body
      → ¬ IsFit state (license_state_from_json body state.license_key [])
      → Refuses state api

-- The answer neither refuses the licence nor confirms it, or cannot be saved.
pub data Unusable (state : PolarLicenseState) (api : ApiResult) (saved : Bool) (s : BrokerState)
    : Type 0 where
  other_status : api.http_status ≢ 404 → api.http_status ≢ 200 → Unusable state api saved s
  not_json : api.http_status ≡ 200 → api.body ≡ none → Unusable state api saved s
  fit :
      (body : LicenseBody)
      → api.http_status ≡ 200
      → api.body ≡ some body
      → IsFit state (license_state_from_json body state.license_key [])
      → (api.server_time ≡ none) ⊎ (is_empty s.boot_session_marker ≡ true) ⊎ (saved ≡ false)
      → Unusable state api saved s

-- What the broker keeps of the licence in each case.
abbrev pub with_confirmed : PolarLicenseState → ℕ → Clocks → BrokerState → BrokerState
with_confirmed l time now s = record s {
  license_state = some (record l {
    validated_at = time;
    boot_marker = s.boot_session_marker;
    validated_uptime_ms = now.uptime;
  });
  license_online_confirmed = true;
  license_validation_unavailable_since = none;
}

abbrev pub without_license : BrokerState → BrokerState
without_license s = record s {
  license_state = none;
  next_license_validation_attempt = none;
  license_online_confirmed = false;
  license_validation_unavailable_since = none;
  revoke_licensed_devices = true;
}

-- The first moment of an outage stays.
abbrev pub since_or : Option ℕ → ℕ → ℕ
since_or none now = now
since_or (some since) now = since

abbrev pub unconfirmed : Clocks → BrokerState → BrokerState
unconfirmed now s = record s {
  license_online_confirmed = false;
  license_validation_unavailable_since =
      some (since_or s.license_validation_unavailable_since now.steady);
}

pub data Outcome (state : PolarLicenseState) (api : ApiResult) (saved : Bool) (now : Clocks)
    (s : BrokerState) : StatusCode × BrokerState → Type 0 where
  confirmed :
      (body : LicenseBody) (time : ℕ)
      → api.transport_ok ≡ true
      → api.http_status ≡ 200
      → api.body ≡ some body
      → IsFit state (license_state_from_json body state.license_key [])
      → api.server_time ≡ some time
      → is_empty s.boot_session_marker ≡ false
      → saved ≡ true
      → Outcome state api saved now s
          (success, with_confirmed (license_state_from_json body state.license_key []) time now s)
  refused :
      api.transport_ok ≡ true
      → Refuses state api
      → Outcome state api saved now s (license_invalid, without_license s)
  unreachable :
      api.transport_ok ≡ false
      → Outcome state api saved now s (network_unavailable, unconfirmed now s)
  unusable :
      api.transport_ok ≡ true
      → Unusable state api saved s
      → Outcome state api saved now s (backend_failure, unconfirmed now s)

mark-unconfirmed :
    (now : Clocks) (s : BrokerState) (l : PolarLicenseState)
    → s.license_state ≡ some l
    → mark_license_validation_unavailable now.steady s ≡ unconfirmed now s
unfolding mark_license_validation_unavailable
mark-unconfirmed now s l e = ground (arith, e)

-- A plan that is allowed has a benefit.
license_allowed-benefit :
    (l : PolarLicenseState) → polar_benefit l.benefit_id ≡ none → license_allowed l ≡ false
unfolding license_allowed plan_name_for_benefit
license_allowed-benefit l e = ground (arith, e)

-- Texts that the code tells apart are not equal.
differs : (s t : Text) → s ≡ t → not (same_text s t) ≡ true → ⊥
differs s t e h =
    let same : same_text s t ≡ true = subst (λ u. same_text s u ≡ true) e (same_text_refl s) in
    ground (arith, same, h)

module _ (state : PolarLicenseState) (api : ApiResult) (saved : Bool) (now : Clocks)
    (s : BrokerState) (has : s.license_state ≡ some state)
    (answered : api.transport_ok ≡ true) where
  give_up :
      Unusable state api saved s
      → Outcome state api saved now s (unavailable backend_failure now.steady s)
  unfolding unavailable
  give_up u =
      subst (λ b. Outcome state api saved now s (backend_failure, b))
        (sym (mark-unconfirmed now s state has)) (unusable answered u)

  refuse : Refuses state api → Outcome state api saved now s (invalidated s)
  unfolding invalidated invalidate_license
  refuse r = refused answered r

  module _ (body : LicenseBody) (ok : api.http_status ≡ 200) (is_body : api.body ≡ some body)
      (is_fit : IsFit state (license_state_from_json body state.license_key [])) where
    timed-Outcome :
        (o : Option PolarBenefit) (time : ℕ)
        → polar_benefit (license_state_from_json body state.license_key []).benefit_id ≡ o
        → api.server_time ≡ some time
        → Outcome state api saved now s (
            validate_accepted
              (accept_for o time s.boot_session_marker now.uptime
                (license_state_from_json body state.license_key []))
              saved
              now.steady
              s)
    unfolding accept_for validate_accepted validated license_confirmed
    timed-Outcome none time b t =
        let l = license_state_from_json body state.license_key [] in
        absurd (ground (arith, license_allowed-benefit l b, is_fit.allowed))
    timed-Outcome (some p) time b t = elim (Bool-cases (is_empty s.boot_session_marker)) [
      | inl e ↦
          rw (e, accept_for, validate_accepted) (give_up (fit body ok is_body is_fit (inr (inl e))))
      | inr e ↦
          rw (e, accept_for, validate_accepted)
            (if_elim (Outcome state api saved now s) saved
              (λ v. confirmed body time answered ok is_body is_fit t e v)
              (λ v. give_up (fit body ok is_body is_fit (inr (inr v)))))
    ]

    accepted-Outcome :
        (time : Option ℕ)
        → api.server_time ≡ time
        → Outcome state api saved now s (
            validate_accepted
              (accept_trusted_license_time time s.boot_session_marker now.uptime
                (license_state_from_json body state.license_key []))
              saved
              now.steady
              s)
    unfolding accept_trusted_license_time validate_accepted
    accepted-Outcome none t = give_up (fit body ok is_body is_fit (inl t))
    accepted-Outcome (some time) t =
        timed-Outcome (polar_benefit (license_state_from_json body state.license_key []).benefit_id)
          time refl t

  validate_state-Outcome :
      (body : LicenseBody)
      → api.http_status ≡ 200
      → api.body ≡ some body
      → Outcome state api saved now s (
          validate_state state.activation_id
            (license_state_from_json body state.license_key [])
            api
            saved
            now
            s)
  unfolding validate_state
  validate_state-Outcome body ok is_body =
      let P = Outcome state api saved now s in
      let l = license_state_from_json body state.license_key [] in
      if_elim P (not (same_text l.activation_id state.activation_id))
        (λ i. refuse (
          unfit body ok is_body
            (λ f. differs l.activation_id state.activation_id f.same_activation i)))
        (λ i.
          if_elim P (not (same_text l.license_status granted))
            (λ g.
              refuse (unfit body ok is_body (λ f. differs l.license_status granted f.is_granted g)))
            (λ g.
              if_elim P (not (license_allowed l))
                (λ a. refuse (unfit body ok is_body (λ f. ground (arith, a, f.allowed))))
                (λ a.
                  accepted-Outcome body ok is_body
                    (record {
                      same_activation =
                          same_text_eq l.activation_id state.activation_id (ground (arith, i));
                      is_granted = same_text_eq l.license_status granted (ground (arith, g));
                      allowed = ground (arith, a);
                    })
                    api.server_time refl)))

  validate_body-Outcome :
      (body : Option LicenseBody)
      → api.http_status ≡ 200
      → api.body ≡ body
      → Outcome state api saved now s (validate_body body state api saved now s)
  unfolding validate_body
  validate_body-Outcome none ok is_body = give_up (not_json ok is_body)
  validate_body-Outcome (some body) ok is_body = validate_state-Outcome body ok is_body

-- Four outcomes of a validation of the saved licence, told apart by the answer and by the status:
-- a granted licence of an allowed plan for the saved activation is confirmed, with the server's
-- time and the uptime in this boot session, and saved; a licence that is unknown or not so is
-- removed and its devices are revoked; and where the service cannot be reached, or its answer is of
-- another status, not JSON, without a time or not saved, or the boot session is not known, the
-- licence is kept as not confirmed, since the first such moment. The rest of the state is kept.
pub validate_license-Outcome :
    (state : PolarLicenseState) (api : ApiResult) (saved : Bool) (now : Clocks) (s : BrokerState)
    → s.license_state ≡ some state
    → Outcome state api saved now s (validate_license state api saved now s)
unfolding validate_license unavailable
validate_license-Outcome state api saved now s has =
    let P = Outcome state api saved now s in
    if_elim P (not api.transport_ok)
      (λ t.
        subst (λ b. P (network_unavailable, b)) (sym (mark-unconfirmed now s state has))
          (unreachable (ground (arith, t))))
      (λ t.
        let ok : api.transport_ok ≡ true = ground (arith, t) in
        if_elim P (api.http_status == 404)
          (λ e. refuse state api saved now s has ok (unknown (ground (arith, e))))
          (λ e.
            if_elim P (api.http_status != 200)
              (λ f.
                give_up state api saved now s has ok
                  (other_status (ground (arith, e)) (ground (arith, f))))
              (λ f.
                validate_body-Outcome state api saved now s has ok api.body (ground (arith, f))
                  refl)))
