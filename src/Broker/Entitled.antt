-- ===== src/Broker/Entitled.antt =====
-- Who may create a gamepad.
use plank_libvirtualhid.Common.{
  ℕ, ◌+◌, ◌≤◌, ◌<◌, ◌≡◌, ◌⊎◌, ◌↔◌, Bool, true, Option, none, some, arith,
}
use plank_libvirtualhid.Broker.Clock.{
  unvalidated_gamepad_creation_allowed, evaluation_active, evaluation_duration,
}
use plank_libvirtualhid.Broker.License.{PolarLicenseState}
use plank_libvirtualhid.Broker.Session.{
  success, BrokerState, Clocks, count_licensed, license_is_active, authorize_evaluation,
  authorize_unlicensed, authorize_licensed, authorize_gamepad_create,
}

-- The five minutes from the start of the evaluation, or their start now, if it can be saved.
abbrev pub IsInWindow : Option ℕ → Bool → ℕ → Type 0
IsInWindow none saved now = saved ≡ true
IsInWindow (some started_at) saved now =
    (started_at ≤ now) × (now < started_at + evaluation_duration)

-- With a licence it has to be active, and confirmed online unless no licensed gamepad exists;
-- without one it takes an evaluation on GitHub Actions.
abbrev pub IsEntitled : Option PolarLicenseState → Bool → Clocks → BrokerState → Type 0
IsEntitled none saved now s =
    (s.github_actions ≡ true) × IsInWindow s.evaluation_started_at saved now.wall
IsEntitled (some l) saved now s =
    (license_is_active (some l) now s ≡ true)
    × ((s.license_online_confirmed ≡ true) ⊎ (count_licensed s.devices ≡ 0))

unlicensed-IsInWindow :
    (o : Option ℕ) (saved : Bool) (now : ℕ) (s : BrokerState)
    → ((authorize_unlicensed o saved now s).0.0 ≡ success) ↔ IsInWindow o saved now
unfolding authorize_unlicensed authorize_evaluation evaluation_active
unlicensed-IsInWindow none saved now s = ground arith
unlicensed-IsInWindow (some t) saved now s = ground arith

-- With a licence, the creation of a gamepad is authorized exactly if the licence is active and has
-- been confirmed online or no licensed gamepad exists; without one, exactly on GitHub Actions
-- within five minutes of the start of the evaluation, which is now if none has started and the
-- start can be saved.
pub authorize-IsEntitled :
    (o : Option PolarLicenseState) (saved : Bool) (now : Clocks) (s : BrokerState)
    → ((authorize_gamepad_create o saved now s).0.0 ≡ success) ↔ IsEntitled o saved now s
unfolding authorize_gamepad_create authorize_licensed unvalidated_gamepad_creation_allowed
    license_is_active
authorize-IsEntitled none saved now s =
    ground (arith, unlicensed-IsInWindow s.evaluation_started_at saved now.wall s)
authorize-IsEntitled (some l) saved now s = ground arith
