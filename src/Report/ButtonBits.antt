-- ===== src/Report/ButtonBits.antt =====
-- The button maps of src/core/report.cpp and the words of bits that they pack.
use plank_libvirtualhid.Common.{
  ℕ, zero, suc, ◌^◌, ◌<◌, ◌≡◌, refl, Bool, true, false, ◌&&◌, ◌||◌, List, [], ◌∷◌, ◌==◌,
  if◌then◌else◌, arith, bit, bit-le, bit-or, bit_or, passes_below, passes_at, ◌++◌,
}
use plank_libvirtualhid.Types.{GamepadButton}
use plank_libvirtualhid.Types.ButtonSet.{ButtonSet}
use plank_libvirtualhid.Types.ButtonSet

pub record ButtonBit : Type 0 where
  pub position : ℕ
  pub button : GamepadButton

abbrev entry : ℕ → GamepadButton → ButtonBit
entry n pressed = record { position = n; button = pressed }

abbrev pub face_shoulder_button_map : List ButtonBit
face_shoulder_button_map =
    entry 0 GamepadButton.a
    ∷ entry 1 GamepadButton.b
    ∷ entry 2 GamepadButton.x
    ∷ entry 3 GamepadButton.y
    ∷ entry 4 GamepadButton.left_shoulder
    ∷ entry 5 GamepadButton.right_shoulder
    ∷ []

abbrev pub common_menu_button_map : List ButtonBit
common_menu_button_map =
    entry 6 GamepadButton.back
    ∷ entry 7 GamepadButton.start
    ∷ entry 8 GamepadButton.left_stick
    ∷ entry 9 GamepadButton.right_stick
    ∷ []

abbrev pub common_extra_button_map : List ButtonBit
common_extra_button_map = entry 10 GamepadButton.guide ∷ entry 11 GamepadButton.misc1 ∷ []

abbrev pub standard_dpad_button_map : List ButtonBit
standard_dpad_button_map =
    entry 12 GamepadButton.dpad_up
    ∷ entry 13 GamepadButton.dpad_down
    ∷ entry 14 GamepadButton.dpad_left
    ∷ entry 15 GamepadButton.dpad_right
    ∷ []

abbrev pub xbox_extra_button_map : List ButtonBit
xbox_extra_button_map = entry 11 GamepadButton.misc1 ∷ []

-- The loop of `button_bits`; every position of a map is below 16, so the casts to 16 bits lose
-- nothing.
bits_from : ℕ → List ButtonBit → ButtonSet → ℕ
bits_from bits [] buttons = bits
bits_from bits (e ∷ es) buttons =
    bits_from (if ButtonSet.test buttons e.button then bit_or bits (2 ^ e.position) else bits) es
      buttons

pub button_bits : List ButtonBit → ButtonSet → ℕ
unfolding bits_from
button_bits es buttons = bits_from 0 es buttons

pub common_button_bits : ButtonSet → ℕ
common_button_bits buttons =
    bit_or
      (bit_or (button_bits face_shoulder_button_map buttons)
        (button_bits common_menu_button_map buttons))
      (button_bits common_extra_button_map buttons)

pub standard_gamepad_button_bits : ButtonSet → ℕ
standard_gamepad_button_bits buttons =
    bit_or (common_button_bits buttons) (button_bits standard_dpad_button_map buttons)

pub xbox_gip_button_bits : ButtonSet → ℕ
xbox_gip_button_bits buttons =
    bit_or
      (bit_or (button_bits face_shoulder_button_map buttons)
        (button_bits common_menu_button_map buttons))
      (button_bits xbox_extra_button_map buttons)

-- Some pressed button of the map has this position.
unfoldable pub pressed_at : ℕ → List ButtonBit → ButtonSet → Bool
pressed_at k [] buttons = false
pressed_at k (e ∷ es) buttons =
    (e.position == k && ButtonSet.test buttons e.button) || pressed_at k es buttons

abbrev IsPlaced : List ButtonBit → Type 0
IsPlaced [] = Unit
IsPlaced (e ∷ es) = (e.position < 16) × IsPlaced es

mask_test : ℕ → ℕ → Bool
mask_test k n = bit k (2 ^ n) == (if n == k then 1 else 0)

mask_table : passes_below (λ k. passes_below (mask_test k) 16) 16 ≡ true
unfolding passes_below mask_test bit
mask_table = refl

bit-mask : (k n : ℕ) → k < 16 → n < 16 → bit k (2 ^ n) ≡ (if n == k then 1 else 0)
unfolding mask_test
bit-mask k n hk hn = ground (
  arith,
  passes_at (mask_test k) 16 n hn
      (passes_at (λ j. passes_below (mask_test j) 16) 16 k hk mask_table),
)

bit-zero : (k : ℕ) → bit k 0 ≡ 0
unfolding bit
bit-zero zero = refl
bit-zero (suc k) = bit-zero k

bit-bits_from :
    (k bits : ℕ) (es : List ButtonBit) (s : ButtonSet)
    → k < 16
    → IsPlaced es
    → (bit k (bits_from bits es s) == 1) ≡ ((bit k bits == 1) || pressed_at k es s)
unfolding bits_from pressed_at
bit-bits_from k bits [] s hk p = ground arith
bit-bits_from k bits (e ∷ es) s hk p = ground (
  arith,
  bit-bits_from k (if ButtonSet.test s e.button then bit_or bits (2 ^ e.position) else bits) es s hk
      p.1,
  bit-or k bits (2 ^ e.position),
  bit-mask k e.position hk p.0,
  bit-le k bits,
)

bit-button_bits :
    (k : ℕ) (es : List ButtonBit) (s : ButtonSet)
    → k < 16
    → IsPlaced es
    → (bit k (button_bits es s) == 1) ≡ pressed_at k es s
unfolding button_bits
bit-button_bits k es s hk p = ground (arith, bit-bits_from k 0 es s hk p, bit-zero k)

bit-either : (k a b : ℕ) → (bit k (bit_or a b) == 1) ≡ ((bit k a == 1) || (bit k b == 1))
bit-either k a b = ground (arith, bit-or k a b, bit-le k a, bit-le k b)

-- The button of each bit of the standard gamepad word, in the order of the bits.
abbrev pub standard_layout : List ButtonBit
standard_layout =
    face_shoulder_button_map
    ++ (common_menu_button_map ++ (common_extra_button_map ++ standard_dpad_button_map))

abbrev pub xbox_layout : List ButtonBit
xbox_layout = face_shoulder_button_map ++ (common_menu_button_map ++ xbox_extra_button_map)

pressed_at-append :
    (k : ℕ) (es fs : List ButtonBit) (s : ButtonSet)
    → pressed_at k (es ++ fs) s ≡ (pressed_at k es s || pressed_at k fs s)
unfolding pressed_at
pressed_at-append k [] fs s = refl
pressed_at-append k (e ∷ es) fs s = ground (arith, pressed_at-append k es fs s)

IsPlaced-face : IsPlaced face_shoulder_button_map
IsPlaced-face = omega arith

IsPlaced-menu : IsPlaced common_menu_button_map
IsPlaced-menu = omega arith

IsPlaced-extra : IsPlaced common_extra_button_map
IsPlaced-extra = omega arith

IsPlaced-dpad : IsPlaced standard_dpad_button_map
IsPlaced-dpad = omega arith

IsPlaced-xbox : IsPlaced xbox_extra_button_map
IsPlaced-xbox = omega arith

standard_bit :
    (k : ℕ) (s : ButtonSet)
    → k < 16
    → (bit k (standard_gamepad_button_bits s) == 1) ≡ pressed_at k standard_layout s
unfolding standard_gamepad_button_bits common_button_bits
standard_bit k s h =
    let face = button_bits face_shoulder_button_map s in
    let menu = button_bits common_menu_button_map s in
    let extra = button_bits common_extra_button_map s in
    let dpad = button_bits standard_dpad_button_map s in
    ground (
      arith,
      bit-either k (bit_or (bit_or face menu) extra) dpad,
      bit-either k (bit_or face menu) extra,
      bit-either k face menu,
      bit-button_bits k face_shoulder_button_map s h IsPlaced-face,
      bit-button_bits k common_menu_button_map s h IsPlaced-menu,
      bit-button_bits k common_extra_button_map s h IsPlaced-extra,
      bit-button_bits k standard_dpad_button_map s h IsPlaced-dpad,
      pressed_at-append k face_shoulder_button_map
          (common_menu_button_map ++ (common_extra_button_map ++ standard_dpad_button_map)) s,
      pressed_at-append k common_menu_button_map
          (common_extra_button_map ++ standard_dpad_button_map) s,
      pressed_at-append k common_extra_button_map standard_dpad_button_map s,
    )

xbox_bit :
    (k : ℕ) (s : ButtonSet)
    → k < 16
    → (bit k (xbox_gip_button_bits s) == 1) ≡ pressed_at k xbox_layout s
unfolding xbox_gip_button_bits
xbox_bit k s h =
    let face = button_bits face_shoulder_button_map s in
    let menu = button_bits common_menu_button_map s in
    let extra = button_bits xbox_extra_button_map s in
    ground (
      arith,
      bit-either k (bit_or face menu) extra,
      bit-either k face menu,
      bit-button_bits k face_shoulder_button_map s h IsPlaced-face,
      bit-button_bits k common_menu_button_map s h IsPlaced-menu,
      bit-button_bits k xbox_extra_button_map s h IsPlaced-xbox,
      pressed_at-append k face_shoulder_button_map (common_menu_button_map ++ xbox_extra_button_map)
          s,
      pressed_at-append k common_menu_button_map xbox_extra_button_map s,
    )

-- Each of the sixteen bits of the standard word is one exactly when the button that the layout
-- puts there is pressed, and each bit of the Xbox word likewise, with the bits that its layout
-- leaves out zero.
pub button_words_lem :
    (k : ℕ) (s : ButtonSet)
    → k < 16
    → ((bit k (standard_gamepad_button_bits s) == 1) ≡ pressed_at k standard_layout s)
      × ((bit k (xbox_gip_button_bits s) == 1) ≡ pressed_at k xbox_layout s)
button_words_lem k s h = (standard_bit k s h, xbox_bit k s h)
