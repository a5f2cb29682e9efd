-- ===== src/Report/Hat.antt =====
-- `hat_from_buttons`, `xbox_gip_hat_from_buttons` and `dpad_hat_bits` of src/core/report.cpp.
use plank_libvirtualhid.Common.{
  ℕ, ◌+◌, ◌*◌, ◌%◌, ◌^◌, ◌≤◌, ◌≡◌, Bool, true, false, ◌&&◌, ◌||◌, ◌==◌, if◌then◌else◌, arith,
}
use plank_libvirtualhid.Types.{GamepadButton}
use plank_libvirtualhid.Types.ButtonSet.{ButtonSet}
use plank_libvirtualhid.Types.ButtonSet

abbrev pub neutral_hat : ℕ
neutral_hat = 8

-- The cascade of `hat_from_buttons` after opposite directions have cancelled.
unfoldable pub hat_of : Bool → Bool → Bool → Bool → ℕ
hat_of up down left right =
    if up && right
    then 1
    else if down && right
    then 3
    else if down && left
    then 5
    else if up && left
    then 7
    else if up
    then 0
    else if right
    then 2
    else if down
    then 4
    else if left
    then 6
    else neutral_hat

unfoldable pub hat_from_buttons : ButtonSet → ℕ
unfolding hat_of
hat_from_buttons buttons =
    let up = ButtonSet.test buttons GamepadButton.dpad_up in
    let down = ButtonSet.test buttons GamepadButton.dpad_down in
    let left = ButtonSet.test buttons GamepadButton.dpad_left in
    let right = ButtonSet.test buttons GamepadButton.dpad_right in
    hat_of (if up && down then false else up) (if up && down then false else down)
      (if left && right then false else left) (if left && right then false else right)

unfoldable pub xbox_gip_hat_from_buttons : ButtonSet → ℕ
xbox_gip_hat_from_buttons buttons =
    let hat = hat_from_buttons buttons in if hat == neutral_hat then 0 else (hat + 1) % 256

unfoldable pub dpad_hat_bits : ButtonSet → ℕ
dpad_hat_bits buttons = (hat_from_buttons buttons * 2 ^ 12) % 2 ^ 16

-- A direction along one axis.
pub data Lean : Type 0 where
  back neutral ahead : Lean

-- What two opposite buttons ask for together.
abbrev pub lean : Bool → Bool → Lean
lean true false = Lean.ahead
lean false true = Lean.back
lean _ _ = Lean.neutral

-- The vertical and horizontal direction that a HID hat value stands for, clockwise from the top.
abbrev pub hat_vertical : ℕ → Lean
hat_vertical hat =
    if hat == 7 || hat == 0 || hat == 1
    then Lean.ahead
    else if hat == 3 || hat == 4 || hat == 5
    then Lean.back
    else Lean.neutral

abbrev pub hat_horizontal : ℕ → Lean
hat_horizontal hat =
    if hat == 1 || hat == 2 || hat == 3
    then Lean.ahead
    else if hat == 5 || hat == 6 || hat == 7
    then Lean.back
    else Lean.neutral

-- The hat value stands for the net direction of the four pad buttons on each axis, where opposite
-- buttons cancel; so do both encodings of it that the reports use, and no value exceeds 8.
pub hat_from_buttons_lem :
    (s : ButtonSet)
    → let hat = hat_from_buttons s in
      (hat ≤ neutral_hat)
      × (hat_vertical hat
          ≡ lean
              (ButtonSet.test s GamepadButton.dpad_up)
              (ButtonSet.test s GamepadButton.dpad_down))
      × (hat_horizontal hat
          ≡ lean
              (ButtonSet.test s GamepadButton.dpad_right)
              (ButtonSet.test s GamepadButton.dpad_left))
      × (xbox_gip_hat_from_buttons s ≡ (hat + 1) % 9)
      × (dpad_hat_bits s ≡ hat * 4096)
unfolding hat_from_buttons xbox_gip_hat_from_buttons dpad_hat_bits
hat_from_buttons_lem s = ground arith
