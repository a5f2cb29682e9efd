-- ===== src/Broker/LicenseText.antt =====
-- How the broker writes its licence to a file and reads it back,
-- src/platform/windows/broker/libvirtualhid_broker.cpp. The encryption of the file is left out.
pub mod Decimal
pub mod Lines
pub mod RoundTrip
use plank_libvirtualhid.Common.{
  ℕ, zero, suc, ◌+◌, ◌-◌, ◌*◌, ◌/◌, ◌%◌, Bool, true, false, ◌&&◌, Option, none, some, List, [], ◌∷◌,
  ◌++◌, length, is_empty, ltb, leb, ◌==◌, if◌then◌else◌, Text, bytes, same_text,
}
use plank_libvirtualhid.Broker.Clock.{uint64_max}
use plank_libvirtualhid.Broker.License.{PolarLicenseState, no_license}

-- The decimal digits of a number before `rest`, as a stream writes it; the fuel bounds their count.
unfoldable pub digits : ℕ → ℕ → Text → Text
digits zero n rest = rest
digits (suc fuel) n rest =
    if ltb n 10 then (n + 48) ∷ rest else digits fuel (n / 10) ((n % 10 + 48) ∷ rest)

-- Twenty digits are enough for 64 bits.
unfoldable pub decimal : ℕ → Text
decimal n = digits 20 n []

-- One line of the file, before the rest of it.
unfoldable pub line : Text → Text → Text → Text
line key value rest = key ++ (b'=' ∷ (value ++ (b'\n' ∷ rest)))

unfoldable pub serialize_license_state : PolarLicenseState → Text
serialize_license_state state = line (bytes "provider") state.provider (
    line (bytes "license_key") state.license_key (
      line (bytes "activation_id") state.activation_id (
        line (bytes "license_key_id") state.license_key_id (
          line (bytes "license_status") state.license_status (
            line (bytes "organization_id") state.organization_id (
              line (bytes "benefit_id") state.benefit_id (
                line (bytes "customer_email") state.customer_email (
                  line (bytes "activation_limit") (decimal state.activation_limit) (
                    line (bytes "validated_at") (decimal state.validated_at) (
                      line (bytes "boot_marker") state.boot_marker (
                        line (bytes "validated_uptime_ms") (decimal state.validated_uptime_ms)
                          [])))))))))))

-- `std::from_chars` on all of a text: digits only, at least one, and no more than 64 bits.
unfoldable pub from_chars : ℕ → Text → Option ℕ
from_chars parsed [] = some parsed
from_chars parsed (c ∷ s) =
    let next = parsed * 10 + (c - 48) in
    let rest = from_chars next s in
    if leb 48 c && leb c 57 && leb next uint64_max then rest else none

unfoldable pub parse_uint64 : Text → Option ℕ
parse_uint64 value = if is_empty value then none else from_chars 0 value

unfoldable pub value_or_zero : Option ℕ → ℕ
value_or_zero none = 0
value_or_zero (some n) = n

-- The text before the first `c`, and what follows it, if there is one: `find` and `substr`.
unfoldable pub split_at : ℕ → Text → Text × Option Text
split_at c [] = ([], none)
split_at c (x ∷ s) = let r = split_at c s in if x == c then ([], some s) else (x ∷ r.0, r.1)

unfoldable pub set_field : Text → Text → PolarLicenseState → PolarLicenseState
set_field key value state =
    if same_text key (bytes "provider")
    then record state { provider = value }
    else if same_text key (bytes "license_key")
    then record state { license_key = value }
    else if same_text key (bytes "activation_id")
    then record state { activation_id = value }
    else if same_text key (bytes "license_key_id")
    then record state { license_key_id = value }
    else if same_text key (bytes "license_status")
    then record state { license_status = value }
    else if same_text key (bytes "organization_id")
    then record state { organization_id = value }
    else if same_text key (bytes "benefit_id")
    then record state { benefit_id = value }
    else if same_text key (bytes "customer_email")
    then record state { customer_email = value }
    else if same_text key (bytes "activation_limit")
    then record state { activation_limit = value_or_zero (parse_uint64 value) % 4294967296 }
    else if same_text key (bytes "validated_at")
    then record state { validated_at = value_or_zero (parse_uint64 value) }
    else if same_text key (bytes "boot_marker")
    then record state { boot_marker = value }
    else if same_text key (bytes "validated_uptime_ms")
    then record state { validated_uptime_ms = value_or_zero (parse_uint64 value) }
    else state

-- What a line does; one without a separator is passed over.
unfoldable pub set_split : Text × Option Text → PolarLicenseState → PolarLicenseState
set_split (key, none) state = state
set_split (key, some value) state = set_field key value state

-- The first line of a text is read; what follows it is left, unless it is the last.
unfoldable pub read_line : Text → PolarLicenseState → PolarLicenseState × Option Text
read_line s state =
    let split = split_at b'\n' s in (set_split (split_at b'=' split.0) state, split.1)

-- The loop over the lines; the fuel bounds their number.
unfoldable pub deserialize_lines : ℕ → Text → PolarLicenseState → PolarLicenseState
deserialize_lines zero s state = state
deserialize_lines (suc fuel) [] state = state
deserialize_lines (suc fuel) (x ∷ s) state =
    let read = read_line (x ∷ s) state in
    elim read.1 [ none ↦ read.0 | some rest ↦ deserialize_lines fuel rest read.0 ]

-- Each turn takes at least one byte, so there are no more turns than bytes.
unfoldable pub deserialize_license_state : Text → PolarLicenseState
deserialize_license_state serialized = deserialize_lines (length serialized) serialized no_license
