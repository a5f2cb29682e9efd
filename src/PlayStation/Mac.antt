-- ===== src/PlayStation/Mac.antt =====
-- The address that a gamepad reports when it is paired.
use plank_libvirtualhid.Common.{
  ℕ, suc, ◌+◌, ◌/◌, ◌%◌, ◌<◌, ◌≡◌, ◌⊎◌, inl, inr, refl, ap, ◌∙◌, Bool-cases, Bool, Option, none,
  some, List, [], ◌∷◌, length, take, drop, ltb, ◌==◌, if◌then◌else◌, Text, arith,
}
use plank_libvirtualhid.Protocol.{bus_bluetooth, gamepad_dualshock4, gamepad_dualsense}
use plank_libvirtualhid.Report.Bytes.{write_u32}
use plank_libvirtualhid.SwitchPro.{copy_to}
use plank_libvirtualhid.PlayStation.{
  hex_value, hex_byte, prepend, parse_bytes, parse_mac_address, FeatureRequest, request_mac_address,
  mac_or_generated, report_of, reversed, set_pairing_mac, set_bluetooth_crc, dualshock4_report,
  dualsense_report, for_bus, make_playstation_feature_report,
}
use plank_libvirtualhid.PlayStation.FeatureReports.{
  dualshock4_pairing_report, dualsense_pairing_report,
}

-- A byte in two digits, with letters of one case.
abbrev pub digit : Bool → ℕ → ℕ
digit upper n = if ltb n 10 then n + 48 else if upper then n + 55 else n + 87

abbrev pub AllBytes : List ℕ → Type 0
AllBytes [] = Unit
AllBytes (b ∷ bs) = (b < 256) × AllBytes bs

-- The bytes in digits, with a colon between two of them, before `rest`.
abbrev pub format : Bool → List ℕ → Text → Text
format upper [] rest = rest
format upper (b ∷ []) rest = digit upper (b / 16) ∷ digit upper (b % 16) ∷ rest
format upper (b ∷ c ∷ bs) rest =
    digit upper (b / 16) ∷ digit upper (b % 16) ∷ b':' ∷ format upper (c ∷ bs) rest

hex_value-digit : (upper : Bool) (n : ℕ) → n < 16 → hex_value (digit upper n) ≡ some n
unfolding hex_value
hex_value-digit upper n h = ground arith

hex_byte-digits :
    (upper : Bool) (b : ℕ)
    → b < 256
    → hex_byte (hex_value (digit upper (b / 16))) (hex_value (digit upper (b % 16))) ≡ some b
unfolding hex_byte
hex_byte-digits upper b h =
    rw (hex_value-digit upper (b / 16) (omega arith), hex_value-digit upper (b % 16) (omega arith))
      (ap some (omega arith))

parse_bytes-format :
    (upper : Bool) (b : ℕ) (bs : List ℕ) (rest : Text)
    → AllBytes (b ∷ bs)
    → parse_bytes (suc (length bs)) (format upper (b ∷ bs) rest) ≡ some (b ∷ bs)
unfolding parse_bytes prepend
parse_bytes-format upper b [] rest a = rw (hex_byte-digits upper b a.0) refl
parse_bytes-format upper b (c ∷ bs) rest a =
    rw (hex_byte-digits upper b a.0, parse_bytes-format upper c bs rest a.1) refl

-- Either kind of gamepad with the number of its pairing report.
abbrev pub IsPairing : ℕ → ℕ → Type 0
IsPairing kind number =
    ((kind ≡ gamepad_dualshock4) × (number ≡ dualshock4_pairing_report))
    ⊎ ((kind ≡ gamepad_dualsense) × (number ≡ dualsense_pairing_report))

-- The six bytes after the report's number, of the report for its bus.
abbrev pub paired_as : Option (List ℕ) → Option (List ℕ)
paired_as none = none
paired_as (some report) = some (take 6 (drop 1 report))

report_of-IsPairing :
    (kind bus_type number a b c d e f : ℕ)
    → IsPairing kind number
    → paired_as (report_of kind bus_type (a ∷ b ∷ c ∷ d ∷ e ∷ f ∷ []) number)
      ≡ some (f ∷ e ∷ d ∷ c ∷ b ∷ a ∷ [])
unfolding report_of for_bus dualshock4_report dualsense_report set_pairing_mac set_bluetooth_crc
    reversed copy_to write_u32
report_of-IsPairing kind bus_type number a b c d e f (inl (k, n)) =
    elim (Bool-cases (bus_type == bus_bluetooth)) [
      | inl bt ↦ rw (k, n, bt) refl
      | inr usb ↦ rw (k, n, usb) refl
    ]
report_of-IsPairing kind bus_type number a b c d e f (inr (k, n)) =
    elim (Bool-cases (bus_type == bus_bluetooth)) [
      | inl bt ↦ rw (k, n, bt) refl
      | inr usb ↦ rw (k, n, usb) refl
    ]

-- On either bus the pairing report of a gamepad whose stable id starts with a MAC address, in hex
-- digits of one case with colons between the bytes, has that address after its number, the last
-- byte first.
pub make_playstation_feature_report-mac :
    (request : FeatureRequest) (number : ℕ) (upper : Bool) (a b c d e f : ℕ) (rest : Text)
    → IsPairing request.gamepad_kind number
    → AllBytes (a ∷ b ∷ c ∷ d ∷ e ∷ f ∷ [])
    → request.stable_id ≡ format upper (a ∷ b ∷ c ∷ d ∷ e ∷ f ∷ []) rest
    → paired_as (make_playstation_feature_report request number) ≡ some (f ∷ e ∷ d ∷ c ∷ b ∷ a ∷ [])
unfolding make_playstation_feature_report request_mac_address parse_mac_address mac_or_generated
make_playstation_feature_report-mac request number upper a b c d e f rest pairing all s =
    let parsed : parse_mac_address request.stable_id ≡ some (a ∷ b ∷ c ∷ d ∷ e ∷ f ∷ []) =
      ap parse_mac_address s ∙ parse_bytes-format upper a (b ∷ c ∷ d ∷ e ∷ f ∷ []) rest all in
    ap
      (λ m. paired_as (
        report_of request.gamepad_kind request.bus_type
          (mac_or_generated m request.client_device_id) number))
      parsed
    ∙ report_of-IsPairing request.gamepad_kind request.bus_type number a b c d e f pairing
