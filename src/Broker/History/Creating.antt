-- ===== src/Broker/History/Creating.antt =====
-- Creation and destruction of gamepads keep what holds of a broker without a licence.
use plank_libvirtualhid.Common.{
  ℕ, ◌≡◌, ◌≢◌, ◌⊎◌, refl, sym, subst, Bool, true, false, not, Option, none, some, List,
  if◌then◌else◌, if_elim, same_text, arith,
}
use plank_libvirtualhid.Broker.Clock.{evaluation_active}
use plank_libvirtualhid.Broker.License.{PolarLicenseState}
use plank_libvirtualhid.Broker.Session.{
  StatusCode, is_success, DeviceRecord, Devices, BrokerState, Clocks, try_emplace, erase_device,
  count_licensed, reconcile_driver_state, authorize_evaluation, authorize_unlicensed,
  authorize_gamepad_create, create_reconciled, begin_create, DriverGamepad, finish_create,
  destroy_found,
}
use plank_libvirtualhid.Broker.History.{begun}
use plank_libvirtualhid.Broker.History.Unlicensed.{
  IsUnlicensed, IsGuarded, count_licensed-try_emplace, count_licensed-erase_device,
  IsUnlicensed-update, shrink-IsGuarded, reconcile-IsGuarded,
}

pub destroy_found-IsGuarded :
    (o : Option DeviceRecord) (id : ℕ) (token : List ℕ) (destroyed : StatusCode) (s : BrokerState)
    → IsGuarded s none
    → IsGuarded (destroy_found o id token destroyed s).1 none
unfolding destroy_found
destroy_found-IsGuarded none id token destroyed s g = g
destroy_found-IsGuarded (some d) id token destroyed s g =
    let P : StatusCode × BrokerState → Type 0 = λ r. IsGuarded r.1 none in
    if_elim P (not (same_text d.session_token token)) (λ _. g)
      (λ _.
        if_elim P (not (is_success destroyed)) (λ _. g)
          (λ _.
            shrink-IsGuarded s (erase_device id s.devices) none
              (count_licensed-erase_device id s.devices) g))

-- A gamepad that is created for an evaluation is not licensed.
pub emplace-revoked :
    (evaluation : Bool) (id : ℕ) (d : DeviceRecord) (s : BrokerState)
    → d.github_actions_evaluation ≡ evaluation
    → IsUnlicensed s (some evaluation)
    → (s.revoke_licensed_devices ≡ true)
      ⊎ ((count_licensed (try_emplace id d s.devices) ≡ 0) × (none ≢ some false))
emplace-revoked true id d s e u =
    ground (arith, u.revoked, count_licensed-try_emplace id d s.devices e)
emplace-revoked false id d s e u = ground (arith, u.revoked)

pub finish_create-IsGuarded :
    (evaluation : Bool) (pid : ℕ) (gamepad : DriverGamepad) (s : BrokerState)
    → IsGuarded s (some evaluation)
    → IsGuarded (finish_create evaluation pid gamepad s).1 none
unfolding finish_create
finish_create-IsGuarded evaluation pid gamepad s g =
    let d : DeviceRecord = record {
      session_token = gamepad.session_token;
      owner_process_id = pid;
      github_actions_evaluation = evaluation;
    } in
    let P : StatusCode × BrokerState → Type 0 = λ r. IsGuarded r.1 none in
    let kept : (ds : Devices)
        → (s.license_state ≡ none
            → (s.revoke_licensed_devices ≡ true) ⊎ ((count_licensed ds ≡ 0) × (none ≢ some false)))
        → IsGuarded (record s { devices = ds }) none =
      λ ds r n.
        IsUnlicensed-update s ds s.revoke_licensed_devices s.driver_state_reconciled
          (some evaluation) none (r n) (g n) in
    if_elim P (not (is_success gamepad.status))
      (λ _. kept s.devices (λ n. ground (arith, (g n).revoked)))
      (λ _.
        kept (try_emplace gamepad.driver_device_id d s.devices)
          (λ n. emplace-revoked evaluation gamepad.driver_device_id d s refl (g n)))

abbrev pub IsGuardedPair : (StatusCode × Bool) × BrokerState → Type 0
IsGuardedPair r = IsGuarded (begun r).broker (begun r).creating

pub authorize_evaluation-IsGuarded :
    (started_at now : ℕ) (s : BrokerState)
    → IsGuarded s none
    → IsGuardedPair (authorize_evaluation started_at now s)
unfolding authorize_evaluation
authorize_evaluation-IsGuarded started_at now s g =
    if_elim IsGuardedPair (evaluation_active started_at now)
      (λ _ n.
        IsUnlicensed-update s s.devices s.revoke_licensed_devices s.driver_state_reconciled none
          (some true) (ground (arith, (g n).revoked)) (g n))
      (λ _. g)

pub authorize_unlicensed-IsGuarded :
    (o : Option ℕ) (saved : Bool) (now : ℕ) (s : BrokerState)
    → IsGuarded s none
    → IsGuardedPair (authorize_unlicensed o saved now s)
unfolding authorize_unlicensed
authorize_unlicensed-IsGuarded (some started_at) saved now s g =
    authorize_evaluation-IsGuarded started_at now s g
authorize_unlicensed-IsGuarded none saved now s g =
    if_elim IsGuardedPair saved
      (λ _.
        authorize_evaluation-IsGuarded now now (record s { evaluation_started_at = some now })
          (λ n.
            let u = g n in
            record {
              not_confirmed = u.not_confirmed;
              no_outage = u.no_outage;
              no_attempt = u.no_attempt;
              revoked = u.revoked;
            }))
      (λ _. g)

pub authorize-IsGuarded :
    (o : Option PolarLicenseState) (saved : Bool) (now : Clocks) (s : BrokerState)
    → s.license_state ≡ o
    → IsGuarded s none
    → IsGuardedPair (authorize_gamepad_create o saved now s)
unfolding authorize_gamepad_create
authorize-IsGuarded none saved now s e g =
    if_elim IsGuardedPair (not s.github_actions) (λ _. g)
      (λ _. authorize_unlicensed-IsGuarded s.evaluation_started_at saved now.wall s g)
authorize-IsGuarded (some l) saved now s e g = λ n. cc

pub not-true : (b : Bool) → not b ≡ true → b ≡ false
not-true true h = cc
not-true false h = refl

pub create_reconciled-IsGuarded :
    (opened duplicated saved : Bool) (now : Clocks) (status : StatusCode) (s : BrokerState)
    → IsGuarded s none
    → IsGuardedPair (create_reconciled opened duplicated saved now (status, s))
unfolding create_reconciled
create_reconciled-IsGuarded opened duplicated saved now status s g =
    if_elim IsGuardedPair (not (is_success status))
      (λ f.
        subst (λ b. IsGuarded s (if b then some false else none))
          (sym (not-true (is_success status) f)) g)
      (λ _.
        if_elim IsGuardedPair (not opened) (λ _. g)
          (λ _.
            if_elim IsGuardedPair (not duplicated) (λ _. g)
              (λ _. authorize-IsGuarded s.license_state saved now s refl g)))

pub begin_create-IsGuarded :
    (valid : Bool) (reset : StatusCode) (opened duplicated saved : Bool) (now : Clocks)
    (s : BrokerState)
    → IsGuarded s none
    → IsGuardedPair (begin_create valid reset opened duplicated saved now s)
unfolding begin_create
begin_create-IsGuarded valid reset opened duplicated saved now s g =
    if_elim IsGuardedPair (not valid) (λ _. g)
      (λ _.
        create_reconciled-IsGuarded opened duplicated saved now (reconcile_driver_state reset s).0
          (reconcile_driver_state reset s).1 (reconcile-IsGuarded reset s none g))
