-- ===== src/Broker/Cleanup/Reasons.antt =====
-- The reasons for which `cleanup_devices` destroys a device.
use plank_libvirtualhid.Common.{
  ℕ, ◌+◌, ◌≤◌, ◌≡◌, ◌≢◌, Text, is_empty, same_text_refl, refl, ap, sym, ◌∙◌, same_text, subst, Bool,
  true, false, Option, none, some, [], ◌∷◌, ◌⊎◌, inl, inr, if_elim, Bool-cases, arith, not, ◌&&◌,
}
use plank_libvirtualhid.Broker.Clock.{
  license_outage_retention_elapsed, evaluation_active, uint64_max, license_validation_is_current,
  license_monotonic_calendar_timestamp,
}
use plank_libvirtualhid.Broker.Session.{
  StatusCode, granted, authorization_of, elapsed_at, validation_elapsed_of, effective_timestamp_of,
  license_authorization_is_current, is_success, DeviceRecord, Devices, BrokerState, Clocks,
  count_licensed, subscription_validation_has_elapsed, license_is_active, reconcile_driver_state,
}
use plank_libvirtualhid.Broker.License.{
  PolarLicenseState, PolarBenefit, yearly, polar_benefit, find_benefit, license_allowed,
}
use plank_libvirtualhid.Broker.Cleanup.{
  CleanupTests, clean, clean_noted, clean_reconciled, cleanup_devices, cleanup_tests, note_elapsed,
  outage_over, evaluation_expired_at,
}
use plank_libvirtualhid.Broker.Cleanup.Survivors.{
  Distinct, survivors, devices-clean, AllMayStay, allowance, clean-AllMayStay,
}

-- Every device, with its id, satisfies `P`.
abbrev pub AllDevices : (ℕ → DeviceRecord → Type 0) → Devices → Type 0
AllDevices P [] = Unit
AllDevices P ((i, d) ∷ ds) = P i d × AllDevices P ds

-- The last validation of a yearly licence lies 25 hours of uptime or more back in this boot session.
pub record HasElapsed (now : Clocks) (s : BrokerState) (l : PolarLicenseState) : Type 0 where
  pub is_yearly : l.benefit_id ≡ yearly.id
  pub at_some_time : l.validated_at ≢ 0
  pub in_range : l.validated_at + 90000 ≤ uint64_max
  pub this_session : l.boot_marker ≡ s.boot_session_marker
  pub known_session : is_empty s.boot_session_marker ≡ false
  pub long_ago : l.validated_uptime_ms + 90000000 ≤ now.uptime

elapsed_at-late :
    (validated_at uptime now : ℕ) (l : PolarLicenseState)
    → l.validated_at ≡ validated_at
    → validated_at ≢ 0
    → validated_at + 90000 ≤ uint64_max
    → uptime + 90000000 ≤ now
    → elapsed_at (license_monotonic_calendar_timestamp validated_at uptime now true) l ≡ true
unfolding elapsed_at license_monotonic_calendar_timestamp license_validation_is_current
elapsed_at-late validated_at uptime now l e n r h = ground arith

benefit-yearly : (id : Text) → id ≡ yearly.id → polar_benefit id ≡ some yearly
unfolding polar_benefit find_benefit
benefit-yearly id e = subst (λ i. polar_benefit i ≡ some yearly) (sym e) refl

same_session :
    (now : Clocks) (s : BrokerState) (l : PolarLicenseState)
    → HasElapsed now s l
    → (not (is_empty s.boot_session_marker) && same_text l.boot_marker s.boot_session_marker) ≡ true
same_session now s l h =
    let same : same_text l.boot_marker s.boot_session_marker ≡ true =
      subst (λ m. same_text l.boot_marker m ≡ true) h.this_session (same_text_refl l.boot_marker) in
    ground (arith, same, h.known_session)

has_elapsed :
    (o : Option PolarLicenseState) (l : PolarLicenseState) (now : Clocks) (s : BrokerState)
    → o ≡ some l
    → HasElapsed now s l
    → subscription_validation_has_elapsed o now s ≡ true
unfolding subscription_validation_has_elapsed validation_elapsed_of effective_timestamp_of
has_elapsed o l now s e h =
    let stamp = λ (b : Bool).
      license_monotonic_calendar_timestamp l.validated_at l.validated_uptime_ms now.uptime b in
    subst (λ p. subscription_validation_has_elapsed p now s ≡ true) (sym e)
      (ap (λ b. validation_elapsed_of b l now s) (benefit-yearly l.benefit_id h.is_yearly)
        ∙ ap (λ (b : Bool). elapsed_at (stamp b) l) (same_session now s l h)
        ∙ elapsed_at-late l.validated_at l.validated_uptime_ms now.uptime l refl h.at_some_time
            h.in_range h.long_ago)

-- What a clean-up of the state `s` at `now` has left. An hour and five minutes are given in
-- nanoseconds.
pub record IsCleaned (now : Clocks) (owner_gone : ℕ → Bool) (s : BrokerState) (left : Devices)
    : Type 0 where
  pub owned : AllDevices (λ i d. owner_gone i ≡ false) left
  pub revoked : s.revoke_licensed_devices ≡ true → count_licensed left ≡ 0
  pub elapsed :
      (l : PolarLicenseState)
      → s.license_state ≡ some l
      → HasElapsed now s l
      → count_licensed left ≡ 0
  pub outage :
      (since : ℕ)
      → s.license_validation_unavailable_since ≡ some since
      → since + 3600000000000 ≤ now.steady
      → count_licensed left ≤ 1
  pub evaluation :
      (began : ℕ)
      → s.github_actions ≡ true
      → s.evaluation_started_at ≡ some began
      → began + 300000000000 ≤ now.wall
      → license_is_active s.license_state now s ≡ false
      → AllDevices (λ i d. d.github_actions_evaluation ≡ false) left

may_stay-owned :
    (t : CleanupTests) (ds : Devices)
    → AllMayStay t ds
    → AllDevices (λ i d. t.owner_gone i ≡ false) ds
may_stay-owned t [] a = tt
may_stay-owned t ((i, d) ∷ ds) a = (ground (arith, a.0), may_stay-owned t ds a.1)

may_stay-evaluation :
    (t : CleanupTests) (ds : Devices)
    → t.evaluation_expired ≡ true
    → AllMayStay t ds
    → AllDevices (λ i d. d.github_actions_evaluation ≡ false) ds
may_stay-evaluation t [] e a = tt
may_stay-evaluation t ((i, d) ∷ ds) e a = (ground (arith, a.0, e), may_stay-evaluation t ds e a.1)

allowance-revoked :
    (t : CleanupTests) (n total : ℕ) → t.revoke_licensed ≡ true → n ≤ allowance t 0 total → n ≡ 0
allowance-revoked t n total e h = ground (arith, e, h)

allowance-outage :
    (t : CleanupTests) (n total : ℕ) → t.limit_licensed ≡ true → n ≤ allowance t 0 total → n ≤ 1
allowance-outage t n total e h = ground (arith, e, h)

outage_over-late :
    (o : Option ℕ) (since now : ℕ)
    → o ≡ some since
    → since + 3600000000000 ≤ now
    → outage_over o now ≡ true
unfolding outage_over license_outage_retention_elapsed
outage_over-late none since now e h = ground (arith, e)
outage_over-late (some t) since now e h = ground (arith, e, h)

evaluation_expired_at-late :
    (o : Option ℕ) (began now : ℕ)
    → o ≡ some began
    → began + 300000000000 ≤ now
    → evaluation_expired_at o now ≡ true
unfolding evaluation_expired_at evaluation_active
evaluation_expired_at-late none began now e h = ground (arith, e)
evaluation_expired_at-late (some t) began now e h = ground (arith, e, h)

abbrev revoking : BrokerState → BrokerState
revoking s = record s { revoke_licensed_devices = true }

authorization_of-revoking :
    (o : Option PolarBenefit) (l : PolarLicenseState) (now : Clocks) (s : BrokerState)
    → authorization_of o l now (revoking s) ≡ authorization_of o l now s
unfolding authorization_of effective_timestamp_of
authorization_of-revoking none l now s = refl
authorization_of-revoking (some b) l now s = refl

license_is_active-revoking :
    (o : Option PolarLicenseState) (now : Clocks) (s : BrokerState)
    → license_is_active o now (revoking s) ≡ license_is_active o now s
unfolding license_is_active license_authorization_is_current
license_is_active-revoking none now s = refl
license_is_active-revoking (some l) now s =
    ap (λ b. license_allowed l && (same_text l.license_status granted && b))
      (authorization_of-revoking (polar_benefit l.benefit_id) l now s)

clean_noted-IsCleaned :
    (now : Clocks) (owner_gone : ℕ → Bool) (s : BrokerState)
    → Distinct s.devices
    → (subscription_validation_has_elapsed s.license_state now s ≡ true
        → s.revoke_licensed_devices ≡ true)
    → IsCleaned now owner_gone s (clean_noted now owner_gone (λ _. true) s).devices
unfolding clean_noted cleanup_tests
clean_noted-IsCleaned now owner_gone s n r =
    let t = cleanup_tests now owner_gone s in
    let left = (clean t (λ _. true) s).devices in
    let (stays, few) = clean-AllMayStay t s n in
    let none_licensed : s.revoke_licensed_devices ≡ true → count_licensed left ≡ 0 =
      λ e. allowance-revoked t (count_licensed left) (count_licensed s.devices) e few in
    record {
      owned = may_stay-owned t left stays;
      revoked = none_licensed;
      elapsed = λ l e h. none_licensed (r (has_elapsed s.license_state l now s e h));
      outage = λ since e h.
          allowance-outage t (count_licensed left) (count_licensed s.devices)
            (outage_over-late s.license_validation_unavailable_since since now.steady e h) few;
      evaluation = λ began g e h inactive.
          may_stay-evaluation t left
            (ground (
              arith,
              g,
              inactive,
              evaluation_expired_at-late s.evaluation_started_at began now.wall e h,
            ))
            stays;
    }

revoking-IsCleaned :
    (now : Clocks) (owner_gone : ℕ → Bool) (s : BrokerState) (left : Devices)
    → IsCleaned now owner_gone (revoking s) left
    → IsCleaned now owner_gone s left
revoking-IsCleaned now owner_gone s left c = record {
  owned = c.owned;
  revoked = λ e. c.revoked refl;
  elapsed = λ l e h. c.revoked refl;
  outage = c.outage;
  evaluation = λ began g e h inactive.
      c.evaluation began g e h (license_is_active-revoking s.license_state now s ∙ inactive);
}

noted-IsCleaned :
    (now : Clocks) (owner_gone : ℕ → Bool) (s : BrokerState)
    → Distinct s.devices
    → IsCleaned now owner_gone s
        (clean_noted now owner_gone (λ _. true) (note_elapsed now s)).devices
unfolding note_elapsed
noted-IsCleaned now owner_gone s n =
    elim (Bool-cases (subscription_validation_has_elapsed s.license_state now s)) [
      | inl e ↦ rw e (
          revoking-IsCleaned now owner_gone s
            (clean_noted now owner_gone (λ _. true) (revoking s)).devices
            (clean_noted-IsCleaned now owner_gone (revoking s) n (λ _. refl)))
      | inr e ↦ rw e (clean_noted-IsCleaned now owner_gone s n (λ t. ground (arith, e, t)))
    ]

-- Nothing is left of no devices.
empty-IsCleaned :
    (now : Clocks) (owner_gone : ℕ → Bool) (s : BrokerState) → IsCleaned now owner_gone s []
unfolding count_licensed
empty-IsCleaned now owner_gone s = record {
  owned = tt;
  revoked = λ e. refl;
  elapsed = λ l e h. refl;
  outage = λ since e h. omega arith;
  evaluation = λ began g e h inactive. tt;
}

clean_noted-empty :
    (now : Clocks) (owner_gone : ℕ → Bool) (s u : BrokerState)
    → u.devices ≡ []
    → IsCleaned now owner_gone s (clean_noted now owner_gone (λ _. true) u).devices
unfolding clean_noted
clean_noted-empty now owner_gone s u e =
    let t = cleanup_tests now owner_gone u in
    subst (IsCleaned now owner_gone s)
      (sym (
        devices-clean t (λ _. true) u (subst Distinct (sym e) tt)
        ∙ ap (survivors t (λ _. true) 0) e))
      (empty-IsCleaned now owner_gone s)

devices-note_elapsed : (now : Clocks) (s : BrokerState) → (note_elapsed now s).devices ≡ s.devices
unfolding note_elapsed
devices-note_elapsed now s =
    if_elim (λ (r : BrokerState). r.devices ≡ s.devices)
      (subscription_validation_has_elapsed s.license_state now s) (λ _. refl) (λ _. refl)

-- When the driver's state has been reset, by now at least, and the driver destroys what it is asked
-- to destroy, every device that a clean-up leaves has a living owner; no licensed one is left under
-- a revocation, or when the validation of a yearly licence lies 25 hours or more back in this boot
-- session; at most one licensed one is left an hour after validations became unavailable; and on
-- GitHub Actions, while no licence is active, none of the evaluation is left five minutes after its
-- start.
pub cleanup_devices-IsCleaned :
    (reset : StatusCode) (now : Clocks) (owner_gone : ℕ → Bool) (s : BrokerState)
    → Distinct s.devices
    → (s.driver_state_reconciled ≡ true) ⊎ (is_success reset ≡ true)
    → IsCleaned now owner_gone s (cleanup_devices reset now owner_gone (λ _. true) s).devices
unfolding cleanup_devices clean_reconciled reconcile_driver_state
cleanup_devices-IsCleaned reset now owner_gone s n h =
    let P : StatusCode × BrokerState → Type 0 =
      λ r. IsCleaned now owner_gone s (clean_reconciled now owner_gone (λ _. true) r).devices in
    let u = record s { devices = []; driver_state_reconciled = true } in
    if_elim P s.driver_state_reconciled (λ _. noted-IsCleaned now owner_gone s n)
      (λ a.
        if_elim P (is_success reset)
          (λ _.
            clean_noted-empty now owner_gone s (note_elapsed now u) (devices-note_elapsed now u))
          (λ b. absurd (ground (arith, a, b, h))))
