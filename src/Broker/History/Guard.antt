-- ===== src/Broker/History/Guard.antt =====
-- Without a licence there is nothing that a licence would have to cover.
use plank_libvirtualhid.Common.{ℕ, ◌≡◌, inr, refl, sym, subst, Bool, true, Option, none, Text}
use plank_libvirtualhid.Broker.License.{PolarLicenseState}
use plank_libvirtualhid.Broker.Session.{
  StatusCode, BrokerState, count_licensed, reconcile_driver_state, handle_destroy,
}
use plank_libvirtualhid.Broker.Cleanup.{cleanup_devices}
use plank_libvirtualhid.Broker.Validation.{
  handle_validate_license, handle_activate_license, handle_deactivate_license,
}
use plank_libvirtualhid.Broker.History.{
  loaded, construct, World, Step, begins, finishes, destroys, cleans, activates, validates,
  deactivates, turns, Reach, here, next,
}
use plank_libvirtualhid.Broker.History.Unlicensed.{
  IsUnlicensed, IsGuarded, reconcile-IsGuarded, cleanup-IsGuarded,
}
use plank_libvirtualhid.Broker.History.Creating.{finish_create-IsGuarded, begin_create-IsGuarded}
use plank_libvirtualhid.Broker.History.License.{
  schedule-IsGuarded, turn-IsGuarded, activate-IsGuarded, handle_deactivate-IsGuarded,
  handle_validate-IsGuarded, handle_destroy-IsGuarded,
}

pub idle : (w : World) → w.creating ≡ none → IsGuarded w.broker w.creating → IsGuarded w.broker none
idle w c g = subst (λ o. IsGuarded w.broker o) c g

pub Step-IsGuarded :
    {w v : World} → Step w v → IsGuarded w.broker w.creating → IsGuarded v.broker v.creating
Step-IsGuarded {w} (begins valid reset opened duplicated saved now c) g =
    begin_create-IsGuarded valid reset opened duplicated saved now w.broker (idle w c g)
Step-IsGuarded {w} (finishes evaluation pid gamepad c) g =
    finish_create-IsGuarded evaluation pid gamepad w.broker (subst (λ o. IsGuarded w.broker o) c g)
Step-IsGuarded {w} (destroys valid id token destroyed c) g =
    subst (λ o. IsGuarded (handle_destroy valid id token destroyed w.broker).1 o) (sym c)
      (handle_destroy-IsGuarded valid id token destroyed w.broker (idle w c g))
Step-IsGuarded {w} (cleans reset now owner_gone destroyed c) g =
    subst (λ o. IsGuarded (cleanup_devices reset now owner_gone destroyed w.broker) o) (sym c)
      (cleanup-IsGuarded reset now owner_gone destroyed w.broker (idle w c g))
Step-IsGuarded {w} (activates valid license_key api saved now c) g =
    subst (λ o. IsGuarded (handle_activate_license valid license_key api saved now w.broker).1 o)
      (sym c) (activate-IsGuarded valid license_key api saved now w.broker (idle w c g))
Step-IsGuarded {w} (validates valid api saved now c) g =
    subst (λ o. IsGuarded (handle_validate_license valid api saved now w.broker).1 o) (sym c)
      (handle_validate-IsGuarded valid api saved now w.broker (idle w c g))
Step-IsGuarded {w} (deactivates valid api c) g =
    subst (λ o. IsGuarded (handle_deactivate_license valid api w.broker).1 o) (sym c)
      (handle_deactivate-IsGuarded valid api w.broker (idle w c g))
Step-IsGuarded {w} (turns api saved now later) g =
    turn-IsGuarded api saved now later w.broker w.creating g

pub loaded-IsGuarded :
    (github_actions : Bool) (marker : Text) (license : Option PolarLicenseState)
    (evaluation : Option ℕ)
    → IsGuarded (loaded github_actions marker license evaluation) none
unfolding count_licensed
loaded-IsGuarded github_actions marker license evaluation n = record {
  not_confirmed = refl;
  no_outage = refl;
  no_attempt = refl;
  revoked = inr (refl, λ e. cc);
}

pub construct-IsGuarded :
    (reset : StatusCode) (now : ℕ) (s : BrokerState)
    → IsGuarded s none
    → IsGuarded (construct reset now s) none
unfolding construct
construct-IsGuarded reset now s g =
    let h = reconcile-IsGuarded reset s none g in
    schedule-IsGuarded now true (reconcile_driver_state reset s).1 none
      (λ n. ((h n).not_confirmed, (h n).no_outage, (h n).revoked))

-- Whatever the driver, the system and the licence service answer, in every interleaving of the
-- requests with the validations from the start of the broker: while there is no licence, nothing is
-- recorded as confirmed online, no outage and no attempt to validate is pending, and the revocation
-- of the licensed gamepads is pending, or none exists and none is being created.
pub Reach-IsGuarded :
    (reset : StatusCode) (now : ℕ) (github_actions : Bool) (marker : Text)
    (license : Option PolarLicenseState) (evaluation : Option ℕ) (w : World)
    → Reach
        (record {
          broker = construct reset now (loaded github_actions marker license evaluation);
          creating = none;
        })
        w
    → w.broker.license_state ≡ none
    → IsUnlicensed w.broker w.creating
Reach-IsGuarded reset now github_actions marker license evaluation w here =
    construct-IsGuarded reset now (loaded github_actions marker license evaluation)
      (loaded-IsGuarded github_actions marker license evaluation)
Reach-IsGuarded reset now github_actions marker license evaluation w (next {w = u} before step) =
    Step-IsGuarded step
      (Reach-IsGuarded reset now github_actions marker license evaluation u before)
