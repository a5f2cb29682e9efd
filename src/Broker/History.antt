-- ===== src/Broker/History.antt =====
-- The life of the broker, src/platform/windows/broker/libvirtualhid_broker.cpp: one thread answers
-- the requests of the pipe, one after the other, each after a clean-up, while a second thread
-- validates the licence. The creation of a gamepad is two steps, with the call of the driver
-- between them, so that a validation can end there.
pub mod Unlicensed
pub mod Creating
pub mod License
pub mod Guard
use plank_libvirtualhid.Common.{
  ℕ, ◌≡◌, Bool, true, false, Option, none, some, List, [], ◌∷◌, if◌then◌else◌, Text,
}
use plank_libvirtualhid.Broker.License.{PolarLicenseState}
use plank_libvirtualhid.Broker.Session.{
  StatusCode, is_success, BrokerState, Clocks, DriverGamepad, reconcile_driver_state, begin_create,
  finish_create, handle_destroy,
}
use plank_libvirtualhid.Broker.Cleanup.{cleanup_devices}
use plank_libvirtualhid.Broker.Validation.{
  ApiResult, schedule_license_validation, license_validation_turn, handle_validate_license,
  handle_activate_license, handle_deactivate_license,
}

-- The members as they are initialized, with what the state files hold.
abbrev pub loaded :
    (github_actions : Bool)
    → Text
    → Option PolarLicenseState
    → (evaluation : Option ℕ) → BrokerState
loaded github_actions marker license evaluation = record {
  github_actions = github_actions;
  boot_session_marker = marker;
  devices = [];
  license_state = license;
  next_license_validation_attempt = none;
  license_validation_unavailable_since = none;
  evaluation_started_at = if github_actions then evaluation else none;
  license_online_confirmed = false;
  revoke_licensed_devices = false;
  driver_state_reconciled = false;
}

-- The body of the constructor.
unfoldable pub construct : (reset : StatusCode) → (now : ℕ) → BrokerState → BrokerState
construct reset now s = schedule_license_validation now true (reconcile_driver_state reset s).1

-- The broker, and the creation that the driver is at work on, with its kind of authorization.
pub record World : Type 0 where
  pub broker : BrokerState
  pub creating : Option Bool

abbrev pub begun : (StatusCode × Bool) × BrokerState → World
begun ((status, evaluation), s) = record {
  broker = s;
  creating = if is_success status then some evaluation else none;
}

pub data Step (w : World) : World → Type 0 where
  begins :
      (valid : Bool) (reset : StatusCode) (opened duplicated saved : Bool) (now : Clocks)
      → w.creating ≡ none
      → Step w (begun (begin_create valid reset opened duplicated saved now w.broker))
  finishes :
      (evaluation : Bool) (client_process_id : ℕ) (gamepad : DriverGamepad)
      → w.creating ≡ some evaluation
      → Step w (record {
        broker = (finish_create evaluation client_process_id gamepad w.broker).1;
        creating = none;
      })
  destroys :
      (valid : Bool) (id : ℕ) (token : List ℕ) (destroyed : StatusCode)
      → w.creating ≡ none
      → Step w (record w { broker = (handle_destroy valid id token destroyed w.broker).1 })
  cleans :
      (reset : StatusCode) (now : Clocks) (owner_gone destroyed : ℕ → Bool)
      → w.creating ≡ none
      → Step w (record w { broker = cleanup_devices reset now owner_gone destroyed w.broker })
  activates :
      (valid : Bool) (license_key : Text) (api : ApiResult) (saved : Bool) (now : Clocks)
      → w.creating ≡ none
      → Step w (record w {
        broker = (handle_activate_license valid license_key api saved now w.broker).1;
      })
  validates :
      (valid : Bool) (api : ApiResult) (saved : Bool) (now : Clocks)
      → w.creating ≡ none
      → Step w (record w { broker = (handle_validate_license valid api saved now w.broker).1 })
  deactivates :
      (valid : Bool) (api : ApiResult)
      → w.creating ≡ none
      → Step w (record w { broker = (handle_deactivate_license valid api w.broker).1 })
  turns :
      (api : ApiResult) (saved : Bool) (now later : Clocks)
      → Step w (record w { broker = license_validation_turn api saved now later w.broker })

pub data Reach (start : World) : World → Type 0 where
  here : Reach start start
  next : {w v : World} → Reach start w → Step w v → Reach start v
