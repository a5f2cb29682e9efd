-- ===== src/Broker/License.antt =====
-- The licence that the broker keeps, src/platform/windows/broker/libvirtualhid_broker.cpp, and the
-- benefits of src/platform/windows/shared/lvh_windows_broker_config.hpp.
use plank_libvirtualhid.Common.{
  ℕ, Bool, true, false, not, ◌&&◌, Option, none, some, List, [], ◌∷◌, is_empty, if◌then◌else◌, Text,
  bytes, same_text,
}

pub record PolarLicenseState : Type 0 where
  pub provider : Text
  pub license_key : Text
  pub activation_id : Text
  pub license_key_id : Text
  pub license_status : Text
  pub organization_id : Text
  pub benefit_id : Text
  pub customer_email : Text
  pub activation_limit : ℕ
  pub validated_at : ℕ
  pub boot_marker : Text
  pub validated_uptime_ms : ℕ

abbrev pub no_license : PolarLicenseState
no_license = record {
  provider = [];
  license_key = [];
  activation_id = [];
  license_key_id = [];
  license_status = [];
  organization_id = [];
  benefit_id = [];
  customer_email = [];
  activation_limit = 0;
  validated_at = 0;
  boot_marker = [];
  validated_uptime_ms = 0;
}

pub record PolarBenefit : Type 0 where
  pub id : Text
  pub plan_name : Text
  pub subscription_backed : Bool

abbrev pub polar_organization_id : Text
polar_organization_id = bytes "3db9f05a-44d7-42f1-ba7c-a0f198235fb7"

abbrev pub yearly : PolarBenefit
yearly = record {
  id = bytes "eb316dac-bf6a-4359-95a2-86c299d48ecc";
  plan_name = bytes "Yearly";
  subscription_backed = true;
}

abbrev pub lifetime : PolarBenefit
lifetime = record {
  id = bytes "157374cb-f526-4154-81ba-9f2c92a053ca";
  plan_name = bytes "Lifetime";
  subscription_backed = false;
}

abbrev pub allowed_benefits : List PolarBenefit
allowed_benefits = yearly ∷ lifetime ∷ []

unfoldable pub find_benefit : Text → List PolarBenefit → Option PolarBenefit
find_benefit benefit_id [] = none
find_benefit benefit_id (b ∷ bs) =
    if same_text b.id benefit_id then some b else find_benefit benefit_id bs

unfoldable pub polar_benefit : Text → Option PolarBenefit
polar_benefit benefit_id = find_benefit benefit_id allowed_benefits

unfoldable pub plan_name_for_benefit : Text → Text
plan_name_for_benefit benefit_id = elim (polar_benefit benefit_id) [
  | none ↦ []
  | some benefit ↦ benefit.plan_name
]

unfoldable pub license_allowed : PolarLicenseState → Bool
license_allowed state =
    not (is_empty polar_organization_id)
    && same_text state.organization_id polar_organization_id
    && not (is_empty (plan_name_for_benefit state.benefit_id))

-- What the accessors of a JSON body give: an empty text, or 0, for a member that is not there, and
-- so for those of `customer` and `activation` where the body has no such object.
pub record LicenseBody : Type 0 where
  pub key : Text
  pub id : Text
  pub status : Text
  pub organization_id : Text
  pub benefit_id : Text
  pub limit_activations : ℕ
  pub customer_email : Text
  pub activation_id : Text

unfoldable pub license_state_from_json : LicenseBody → Text → Text → PolarLicenseState
license_state_from_json body fallback_license_key fallback_activation_id = record no_license {
  provider = bytes "polar";
  license_key = if is_empty body.key then fallback_license_key else body.key;
  activation_id =
      if is_empty body.activation_id then fallback_activation_id else body.activation_id;
  license_key_id = body.id;
  license_status = body.status;
  organization_id = body.organization_id;
  benefit_id = body.benefit_id;
  customer_email = body.customer_email;
  activation_limit = body.limit_activations;
}

pub data TrustedLicenseTimeResult : Type 0 where
  trusted license_is_invalid no_trusted_time : TrustedLicenseTimeResult

-- The licence with the time, the boot session and the uptime of its validation.
unfoldable pub validated : ℕ → (boot : Text) → (uptime : ℕ) → PolarLicenseState → PolarLicenseState
validated time boot uptime state = record state {
  validated_at = time;
  boot_marker = boot;
  validated_uptime_ms = uptime;
}

unfoldable pub accept_for :
    Option PolarBenefit
    → ℕ
    → (boot : Text) → (uptime : ℕ) → PolarLicenseState
    → TrustedLicenseTimeResult × PolarLicenseState
accept_for none time boot uptime state = (license_is_invalid, state)
accept_for (some benefit) time boot uptime state =
    if is_empty boot
    then (no_trusted_time, validated time boot uptime state)
    else (trusted, validated time boot uptime state)

-- The server's time is the timestamp that `license_calendar_timestamp` gives for it.
unfoldable pub accept_trusted_license_time :
    Option ℕ
    → (boot : Text) → (uptime : ℕ) → PolarLicenseState
    → TrustedLicenseTimeResult × PolarLicenseState
accept_trusted_license_time none boot uptime state = (no_trusted_time, state)
accept_trusted_license_time (some time) boot uptime state =
    accept_for (polar_benefit state.benefit_id) time boot uptime state
