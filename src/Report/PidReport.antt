-- ===== src/Report/PidReport.antt =====
-- The decoding of four-motor PID rumble reports in src/core/report.cpp.
use plank_libvirtualhid.Common.{
  ℕ, ◌+◌, ◌*◌, ◌/◌, ◌%◌, ◌^◌, ◌≤◌, ◌<◌, ◌≡◌, refl, Bool, true, false, not, ◌&&◌, ◌||◌, Option, none,
  some, List, [], ◌∷◌, length, bit_and, any_of, ltb, leb, ◌==◌, ◌!=◌, if◌then◌else◌, arith,
  passes_below, passes_at,
}
use plank_libvirtualhid.Types.{DeviceProfile, GamepadProfileKind}
use plank_libvirtualhid.Report.Bytes.{byte_at, has_flag}

pub record PidRumbleAmplitude : Type 0 where
  pub left_trigger : ℕ
  pub right_trigger : ℕ
  pub low_frequency : ℕ
  pub high_frequency : ℕ

abbrev pub maximum_magnitude : ℕ
maximum_magnitude = 100

unfoldable pub scale_pid_rumble_magnitude : ℕ → ℕ
scale_pid_rumble_magnitude value = (value * 65535 + 50) / maximum_magnitude % 2 ^ 16

-- The tail that both Xbox kinds share.
xbox_offset : List ℕ → Option ℕ
xbox_offset report =
    if leb 9 (length report) && byte_at report 0 == 0
    then some 1
    else if leb 8 (length report)
    then some 0
    else none

unfoldable pub pid_rumble_payload_offset : DeviceProfile → List ℕ → Option ℕ
unfolding xbox_offset
pid_rumble_payload_offset profile report = elim profile.gamepad_kind [
  | GamepadProfileKind.generic ↦
      if leb 9 (length report) && byte_at report 0 == profile.report_id then some 1 else none
  | GamepadProfileKind.xbox_one ↦ xbox_offset report
  | GamepadProfileKind.xbox_series ↦
      if leb 9 (length report) && byte_at report 0 == 0x03 then some 1 else xbox_offset report
  | _ ↦ none
]

-- The four magnitudes of the payload, `subspan(offset + 1, 4)`.
abbrev pub magnitudes : List ℕ → ℕ → List ℕ
magnitudes report offset =
    byte_at report (offset + 1)
    ∷ byte_at report (offset + 2)
    ∷ byte_at report (offset + 3)
    ∷ byte_at report (offset + 4)
    ∷ []

unfoldable pub too_strong : List ℕ → ℕ → Bool
too_strong report offset = any_of (λ m. ltb maximum_magnitude m) (magnitudes report offset)

unfoldable pub enabled_magnitude : ℕ → ℕ → ℕ → ℕ → ℕ
enabled_magnitude duration enabled enable_bit magnitude =
    if duration == 0 || not (has_flag enabled enable_bit)
    then 0
    else scale_pid_rumble_magnitude magnitude

unfoldable pub amplitude_at : List ℕ → ℕ → PidRumbleAmplitude
amplitude_at report offset =
    let enabled = bit_and (byte_at report offset) 0x0F in
    let duration = byte_at report (offset + 5) in
    record {
      left_trigger = enabled_magnitude duration enabled 0x08 (byte_at report (offset + 1));
      right_trigger = enabled_magnitude duration enabled 0x04 (byte_at report (offset + 2));
      low_frequency = enabled_magnitude duration enabled 0x02 (byte_at report (offset + 3));
      high_frequency = enabled_magnitude duration enabled 0x01 (byte_at report (offset + 4));
    }

decode_at : List ℕ → Option ℕ → Option PidRumbleAmplitude
decode_at report none = none
decode_at report (some offset) =
    if too_strong report offset then none else some (amplitude_at report offset)

unfoldable pub decode_pid_rumble_report : DeviceProfile → List ℕ → Option PidRumbleAmplitude
unfolding decode_at
decode_pid_rumble_report profile report =
    decode_at report (pid_rumble_payload_offset profile report)

-- The payload lies inside the report: all six bytes that the decoder reads are there.
pub payload_in_bounds :
    (profile : DeviceProfile) (report : List ℕ) (offset : ℕ)
    → pid_rumble_payload_offset profile report ≡ some offset
    → offset + 6 ≤ length report
unfolding pid_rumble_payload_offset
payload_in_bounds profile report offset e = ground arith

-- A motor that is on has the strength nearest to its share of 65535, and one that is off has none.
abbrev pub IsScaled : Bool → ℕ → ℕ → Type 0
IsScaled true m strength = (strength * 100 ≤ m * 65535 + 50) × (m * 65535 ≤ strength * 100 + 49)
IsScaled false m strength = strength ≡ 0

-- The motor's flag is set in the report, and the duration is not zero.
abbrev pub is_on : List ℕ → ℕ → ℕ → Bool
is_on report offset flag = byte_at report (offset + 5) != 0 && has_flag (byte_at report offset) flag

low_flags : ℕ → Bool
low_flags b =
    bit_and (bit_and b 0x0F) 0x08 == bit_and b 0x08
    && bit_and (bit_and b 0x0F) 0x04 == bit_and b 0x04
    && bit_and (bit_and b 0x0F) 0x02 == bit_and b 0x02
    && bit_and (bit_and b 0x0F) 0x01 == bit_and b 0x01

low_flags_table : passes_below low_flags 256 ≡ true
unfolding passes_below low_flags
low_flags_table = refl

low_flags_lem :
    (b : ℕ)
    → b < 256
    → (bit_and (bit_and b 0x0F) 0x08 ≡ bit_and b 0x08)
      × (bit_and (bit_and b 0x0F) 0x04 ≡ bit_and b 0x04)
      × (bit_and (bit_and b 0x0F) 0x02 ≡ bit_and b 0x02)
      × (bit_and (bit_and b 0x0F) 0x01 ≡ bit_and b 0x01)
unfolding low_flags
low_flags_lem b h = ground (arith, passes_at low_flags 256 b h low_flags_table)

enabled-if :
    (duration b flag m : ℕ)
    → bit_and (bit_and b 0x0F) flag ≡ bit_and b flag
    → enabled_magnitude duration (bit_and b 0x0F) flag m
      ≡ (if duration != 0 && has_flag b flag then scale_pid_rumble_magnitude m else 0)
unfolding enabled_magnitude
enabled-if duration b flag m e = ground arith

if-IsScaled :
    (on : Bool) (m : ℕ) → m ≤ 100 → IsScaled on m (if on then scale_pid_rumble_magnitude m else 0)
unfolding scale_pid_rumble_magnitude
if-IsScaled true m h = omega arith
if-IsScaled false m h = refl

enabled-IsScaled :
    (duration b flag m : ℕ)
    → m ≤ 100
    → bit_and (bit_and b 0x0F) flag ≡ bit_and b flag
    → IsScaled
        (duration != 0 && has_flag b flag)
        m
        (enabled_magnitude duration (bit_and b 0x0F) flag m)
enabled-IsScaled duration b flag m h e =
    rw (enabled-if duration b flag m e) (if-IsScaled (duration != 0 && has_flag b flag) m h)

-- A report with a payload whose four magnitudes are at most 100 is decoded, and each motor's
-- strength is the one that its own flag, the duration and its magnitude ask for.
pub decode_pid_rumble_report_lem :
    (profile : DeviceProfile) (report : List ℕ) (offset : ℕ)
    → pid_rumble_payload_offset profile report ≡ some offset
    → byte_at report offset < 256
    → byte_at report (offset + 1) ≤ 100
    → byte_at report (offset + 2) ≤ 100
    → byte_at report (offset + 3) ≤ 100
    → byte_at report (offset + 4) ≤ 100
    → let a = amplitude_at report offset in
      (decode_pid_rumble_report profile report ≡ some a)
      × IsScaled (is_on report offset 0x08) (byte_at report (offset + 1)) a.left_trigger
      × IsScaled (is_on report offset 0x04) (byte_at report (offset + 2)) a.right_trigger
      × IsScaled (is_on report offset 0x02) (byte_at report (offset + 3)) a.low_frequency
      × IsScaled (is_on report offset 0x01) (byte_at report (offset + 4)) a.high_frequency
unfolding decode_pid_rumble_report amplitude_at too_strong
decode_pid_rumble_report_lem profile report offset e b h1 h2 h3 h4 =
    let f = low_flags_lem (byte_at report offset) b in
    let d = byte_at report (offset + 5) in
    (
      rw (e, decode_at) (ground arith),
      enabled-IsScaled d (byte_at report offset) 0x08 (byte_at report (offset + 1)) h1 f.0,
      enabled-IsScaled d (byte_at report offset) 0x04 (byte_at report (offset + 2)) h2 f.1,
      enabled-IsScaled d (byte_at report offset) 0x02 (byte_at report (offset + 3)) h3 f.2,
      enabled-IsScaled d (byte_at report offset) 0x01 (byte_at report (offset + 4)) h4 f.3,
    )
