-- ===== src/Report/Parse.antt =====
-- `parse_output_report` and `parse_output_reports` of src/core/report.cpp.
use plank_libvirtualhid.Common.{
  ℕ, ◌≡◌, refl, Bool, true, false, ◌&&◌, Option, none, some, List, [], ◌∷◌, length, is_empty, leb,
  ◌==◌, if◌then◌else◌, arith,
}
use plank_libvirtualhid.Common.Float.{Float}
use plank_libvirtualhid.Types.{
  DeviceProfile, GamepadProfileKind, GamepadOutput, GamepadOutputKind, plain_output,
}
use plank_libvirtualhid.Report.Bytes.{byte_at, read_u16}
use plank_libvirtualhid.Report.PidReport.{PidRumbleAmplitude, decode_pid_rumble_report}
use plank_libvirtualhid.Report.SwitchReport.{SwitchRumbleAmplitude, decode_switch_rumble_report}
use plank_libvirtualhid.Report.PlayStation.{
  dualsense_common_output_offset, dualshock4_common_output_offset, dualsense_outputs,
  dualshock4_outputs,
}

-- The last case of the parser: the report as it is.
abbrev raw_outputs : List ℕ → List GamepadOutput
raw_outputs report = plain_output report ∷ []

unfoldable pub pid_outputs : List ℕ → PidRumbleAmplitude → List GamepadOutput
pid_outputs report r =
    record (plain_output report) {
      kind = GamepadOutputKind.rumble;
      low_frequency_rumble = r.low_frequency;
      high_frequency_rumble = r.high_frequency;
    }
    ∷ record (plain_output report) {
      kind = GamepadOutputKind.trigger_rumble;
      left_trigger_rumble = r.left_trigger;
      right_trigger_rumble = r.right_trigger;
    }
    ∷ []

unfoldable pub switch_outputs : List ℕ → SwitchRumbleAmplitude → List GamepadOutput
switch_outputs report r =
    record (plain_output report) {
      kind = GamepadOutputKind.rumble;
      low_frequency_rumble = r.low_frequency;
      high_frequency_rumble = r.high_frequency;
    }
    ∷ []

is_xbox_360 : GamepadProfileKind → Bool
is_xbox_360 GamepadProfileKind.xbox_360 = true
is_xbox_360 _ = false

unfoldable pub xbox_360_outputs : DeviceProfile → List ℕ → List GamepadOutput
unfolding is_xbox_360
xbox_360_outputs profile report =
    if is_xbox_360 profile.gamepad_kind
      && profile.capabilities.supports_rumble
      && leb 5 profile.output_report_size
      && leb profile.output_report_size (length report)
      && byte_at report 0 == profile.report_id
    then record (plain_output report) {
      kind = GamepadOutputKind.rumble;
      low_frequency_rumble = read_u16 report 1;
      high_frequency_rumble = read_u16 report 3;
    }
      ∷ []
    else raw_outputs report

-- From the PID decoder on.
unfoldable pub common_outputs : DeviceProfile → List ℕ → List GamepadOutput
common_outputs profile report = elim (decode_pid_rumble_report profile report) [
  | none ↦ xbox_360_outputs profile report
  | some r ↦ pid_outputs report r
]

-- An `if (const auto x = …; x.has_value())` around what adds outputs.
optional : {A : Type 0} → Option A → (A → List GamepadOutput) → List GamepadOutput
optional none outputs = []
optional (some a) outputs = outputs a

unfoldable pub or_common : List GamepadOutput → DeviceProfile → List ℕ → List GamepadOutput
or_common [] profile report = common_outputs profile report
or_common (o ∷ os) profile report = o ∷ os

module _ (float : Float) where
  -- The outputs of the parser that the gamepad kind selects, none if it declines the report.
  unfoldable pub own_outputs : GamepadProfileKind → List ℕ → List GamepadOutput
  unfolding optional
  own_outputs GamepadProfileKind.dualshock4 report =
      optional (dualshock4_common_output_offset report) (dualshock4_outputs float report)
  own_outputs GamepadProfileKind.dualsense report =
      optional (dualsense_common_output_offset report) (dualsense_outputs float report)
  own_outputs GamepadProfileKind.switch_pro report =
      optional (decode_switch_rumble_report report) (switch_outputs report)
  own_outputs _ report = []

  unfoldable pub parse_output_reports : DeviceProfile → List ℕ → List GamepadOutput
  unfolding own_outputs or_common
  parse_output_reports profile report =
      or_common (own_outputs profile.gamepad_kind report) profile report

  first_or : List GamepadOutput → List ℕ → GamepadOutput
  first_or [] report = plain_output report
  first_or (o ∷ os) report = o

  unfoldable pub parse_output_report : DeviceProfile → List ℕ → GamepadOutput
  unfolding first_or
  parse_output_report profile report = first_or (parse_output_reports profile report) report

-- Every output carries the report.
abbrev pub AllCarry : List ℕ → List GamepadOutput → Type 0
AllCarry report [] = Unit
AllCarry report (o ∷ os) = (o.raw_report ≡ report) × AllCarry report os

xbox_360-AllCarry :
    (profile : DeviceProfile) (report : List ℕ)
    → AllCarry report (xbox_360_outputs profile report)
      × (is_empty (xbox_360_outputs profile report) ≡ false)
unfolding xbox_360_outputs
xbox_360-AllCarry profile report = ground arith

common-AllCarry :
    (profile : DeviceProfile) (report : List ℕ)
    → AllCarry report (common_outputs profile report)
      × (is_empty (common_outputs profile report) ≡ false)
unfolding common_outputs pid_outputs
common-AllCarry profile report = ground (arith, xbox_360-AllCarry profile report)

optional-AllCarry :
    {A : Type 0} (report : List ℕ) (o : Option A) (outputs : A → List GamepadOutput)
    → ((a : A) → AllCarry report (outputs a))
    → AllCarry report (optional o outputs)
unfolding optional
optional-AllCarry report none outputs h = tt
optional-AllCarry report (some a) outputs h = h a

module _ (float : Float) where
  dualshock4-AllCarry :
      (report : List ℕ) (offset : ℕ) → AllCarry report (dualshock4_outputs float report offset)
  unfolding dualshock4_outputs
  dualshock4-AllCarry report offset = ground arith

  dualsense-AllCarry :
      (report : List ℕ) (offset : ℕ) → AllCarry report (dualsense_outputs float report offset)
  unfolding dualsense_outputs
  dualsense-AllCarry report offset = ground arith

  own-AllCarry :
      (kind : GamepadProfileKind) (report : List ℕ)
      → AllCarry report (own_outputs float kind report)
  unfolding own_outputs switch_outputs
  own-AllCarry GamepadProfileKind.dualshock4 report =
      optional-AllCarry report (dualshock4_common_output_offset report)
        (dualshock4_outputs float report) (dualshock4-AllCarry report)
  own-AllCarry GamepadProfileKind.dualsense report =
      optional-AllCarry report (dualsense_common_output_offset report)
        (dualsense_outputs float report) (dualsense-AllCarry report)
  own-AllCarry GamepadProfileKind.switch_pro report =
      optional-AllCarry report (decode_switch_rumble_report report) (switch_outputs report)
        (λ r. (refl, tt))
  own-AllCarry _ report = tt

  or_common-AllCarry :
      (own : List GamepadOutput) (profile : DeviceProfile) (report : List ℕ)
      → AllCarry report own
      → AllCarry report (or_common own profile report)
        × (is_empty (or_common own profile report) ≡ false)
  unfolding or_common
  or_common-AllCarry [] profile report h = common-AllCarry profile report
  or_common-AllCarry (o ∷ os) profile report h = (h, refl)

  -- Whatever the profile and the report, the parser gives at least one output, and each output
  -- carries the whole report.
  pub parse_output_reports-AllCarry :
      (profile : DeviceProfile) (report : List ℕ)
      → AllCarry report (parse_output_reports float profile report)
        × (is_empty (parse_output_reports float profile report) ≡ false)
  unfolding parse_output_reports
  parse_output_reports-AllCarry profile report =
      or_common-AllCarry (own_outputs float profile.gamepad_kind report) profile report
        (own-AllCarry profile.gamepad_kind report)
