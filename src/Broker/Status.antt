-- ===== src/Broker/Status.antt =====
-- The licence status that the broker reports, `fill_license_status_locked` of
-- src/platform/windows/broker/libvirtualhid_broker.cpp, without the texts of its messages.
use plank_libvirtualhid.Common.{
  ℕ, ◌≡◌, ◌↔◌, refl, true, false, not, Option, none, some, [], length, is_empty, ◌%◌, if◌then◌else◌,
  Bool-cases, inl, inr, Text, bytes, same_text, same_text_eq, arith,
}
use plank_libvirtualhid.Broker.License.{PolarLicenseState, plan_name_for_benefit, license_allowed}
use plank_libvirtualhid.Broker.Session.{
  BrokerState, Clocks, granted, license_authorization_is_current, license_is_active,
}

-- `LvhWindowsBrokerLicenseState`
pub data LicenseStateCode : Type 0 where
  free licensed expired disabled invalid : LicenseStateCode

-- `LvhWindowsBrokerLicenseStatus`, without its message and its fixed fields.
pub record LicenseStatus : Type 0 where
  pub active_devices : ℕ
  pub state : LicenseStateCode
  pub activation_limit : ℕ
  pub activation_usage : ℕ
  pub plan_name : Text
  pub customer_email : Text

unfoldable pub state_code : PolarLicenseState → Clocks → BrokerState → LicenseStateCode
state_code l now s =
    if not (license_allowed l)
    then invalid
    else if same_text l.license_status (bytes "disabled")
    then disabled
    else if same_text l.license_status (bytes "revoked")
    then invalid
    else if not (license_authorization_is_current l now s)
    then invalid
    else if same_text l.license_status granted
    then licensed
    else invalid

-- The count of the devices is cast to 32 bits.
unfoldable pub fill_for : Option PolarLicenseState → Clocks → BrokerState → LicenseStatus
fill_for none now s = record {
  active_devices = length s.devices % 4294967296;
  state = free;
  activation_limit = 0;
  activation_usage = 0;
  plan_name = if s.github_actions then bytes "GitHub Actions Evaluation" else bytes "Unlicensed";
  customer_email = [];
}
fill_for (some l) now s = record {
  active_devices = length s.devices % 4294967296;
  state = state_code l now s;
  activation_limit = l.activation_limit;
  activation_usage = if is_empty l.activation_id then 0 else 1;
  plan_name =
      if is_empty (plan_name_for_benefit l.benefit_id)
      then bytes "Licensed"
      else plan_name_for_benefit l.benefit_id;
  customer_email = l.customer_email;
}

unfoldable pub fill_license_status : Clocks → BrokerState → LicenseStatus
fill_license_status now s = fill_for s.license_state now s

-- A licence that is authorized is granted, so it has neither of the other two statuses.
authorized-granted :
    (l : PolarLicenseState) (now : Clocks) (s : BrokerState)
    → license_authorization_is_current l now s ≡ true
    → l.license_status ≡ granted
unfolding license_authorization_is_current
authorized-granted l now s h = same_text_eq l.license_status granted (ground (arith, h))

granted_only :
    (status : Text)
    → status ≡ granted
    → (same_text status (bytes "disabled") ≡ false)
      × (same_text status (bytes "revoked") ≡ false)
      × (same_text status granted ≡ true)
granted_only status e = rw e (refl, refl, refl)

state_code_lem :
    (l : PolarLicenseState) (now : Clocks) (s : BrokerState)
    → (state_code l now s ≡ licensed) ↔ (license_is_active (some l) now s ≡ true)
unfolding state_code license_is_active
state_code_lem l now s = elim (Bool-cases (license_authorization_is_current l now s)) [
  | inl c ↦
      let only = granted_only l.license_status (authorized-granted l now s c) in
      ground (arith, c, only.0, only.1, only.2)
  | inr c ↦ ground (arith, c)
]

fill_for_lem :
    (o : Option PolarLicenseState) (now : Clocks) (s : BrokerState)
    → ((fill_for o now s).state ≡ licensed) ↔ (license_is_active o now s ≡ true)
unfolding fill_for license_is_active
fill_for_lem none now s = ((λ h. cc), (λ h. cc))
fill_for_lem (some l) now s = state_code_lem l now s

-- The state that is reported is "licensed" exactly when the licence counts as active for the
-- creation and the clean-up of gamepads.
pub fill_license_status_lem :
    (now : Clocks) (s : BrokerState)
    → ((fill_license_status now s).state ≡ licensed)
      ↔ (license_is_active s.license_state now s ≡ true)
unfolding fill_license_status
fill_license_status_lem now s = fill_for_lem s.license_state now s
