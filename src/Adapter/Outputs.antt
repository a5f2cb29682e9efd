-- ===== src/Adapter/Outputs.antt =====
-- The support queries of src/core/gamepad_adapter.cpp against the output parser of
-- src/core/report.cpp.
use plank_libvirtualhid.Common.Float.{Float}
use plank_libvirtualhid.Common.{
  ℕ, ◌≡◌, refl, ap, ◌∙◌, Bool, true, false, ◌||◌, some, List, [], ◌∷◌, arith,
}
use plank_libvirtualhid.Types.{DeviceProfile, GamepadProfileKind, GamepadOutput, GamepadOutputKind}
use plank_libvirtualhid.Report.PidReport.{PidRumbleAmplitude, decode_pid_rumble_report}
use plank_libvirtualhid.Report.Parse.{
  parse_output_reports, own_outputs, or_common, common_outputs, pid_outputs,
}
use plank_libvirtualhid.Adapter.Support.{
  gamepad_profile_support, supports_gamepad_output, supports_output_kind,
}

abbrev is_trigger_rumble : GamepadOutputKind → Bool
is_trigger_rumble GamepadOutputKind.trigger_rumble = true
is_trigger_rumble _ = false

-- Some output of the list has strengths for the triggers.
abbrev pub has_trigger_rumble : List GamepadOutput → Bool
has_trigger_rumble [] = false
has_trigger_rumble (o ∷ os) = is_trigger_rumble o.kind || has_trigger_rumble os

-- The kinds whose output reports only the PID decoder reads.
abbrev pub is_xbox_gip : GamepadProfileKind → Bool
is_xbox_gip GamepadProfileKind.xbox_one = true
is_xbox_gip GamepadProfileKind.xbox_series = true
is_xbox_gip _ = false

own_outputs-none :
    (float : Float) (kind : GamepadProfileKind) (report : List ℕ)
    → is_xbox_gip kind ≡ true
    → own_outputs float kind report ≡ []
unfolding own_outputs
own_outputs-none float GamepadProfileKind.generic report h = refl
own_outputs-none float GamepadProfileKind.xbox_360 report h = refl
own_outputs-none float GamepadProfileKind.xbox_one report h = refl
own_outputs-none float GamepadProfileKind.xbox_series report h = refl
own_outputs-none float GamepadProfileKind.dualsense report h = cc
own_outputs-none float GamepadProfileKind.switch_pro report h = cc
own_outputs-none float GamepadProfileKind.dualshock4 report h = cc

common_outputs-some :
    (profile : DeviceProfile) (report : List ℕ) (a : PidRumbleAmplitude)
    → decode_pid_rumble_report profile report ≡ some a
    → common_outputs profile report ≡ pid_outputs report a
unfolding common_outputs
common_outputs-some profile report a e = rw (common_outputs, e)

no_trigger_rumble :
    (profile : DeviceProfile)
    → supports_gamepad_output profile GamepadOutputKind.trigger_rumble ≡ false
unfolding supports_gamepad_output supports_output_kind gamepad_profile_support
no_trigger_rumble profile = ground arith

-- The parser emits strengths for the triggers for every report of an Xbox One or Xbox Series
-- profile that the PID decoder accepts, while the support query answers that the profile cannot
-- emit them.
pub parse_output_reports-trigger_rumble :
    (float : Float) (profile : DeviceProfile) (report : List ℕ) (a : PidRumbleAmplitude)
    → is_xbox_gip profile.gamepad_kind ≡ true
    → decode_pid_rumble_report profile report ≡ some a
    → (has_trigger_rumble (parse_output_reports float profile report) ≡ true)
      × (supports_gamepad_output profile GamepadOutputKind.trigger_rumble ≡ false)
unfolding parse_output_reports or_common common_outputs pid_outputs
parse_output_reports-trigger_rumble float profile report a k e = (
  ap has_trigger_rumble (
      ap (λ own. or_common own profile report)
        (own_outputs-none float profile.gamepad_kind report k)
      ∙ common_outputs-some profile report a e),
  no_trigger_rumble profile,
)
