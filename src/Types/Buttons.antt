-- ===== src/Types/Buttons.antt =====
-- `ButtonSet` of src/core/types.cpp against the plain view of a set of buttons.
use plank_libvirtualhid.Common.{
  ℕ, ◌-◌, ◌^◌, ◌≡◌, refl, Bool, true, ◌&&◌, ◌==◌, if◌then◌else◌, arith, bit, bit-le, bit-or,
  bit-and, and-pow, passes_below, passes_at, ◌<◌,
}
use native.Mathlib.Nat.{one-le-pow}
use plank_libvirtualhid.Types.{GamepadButton, to_underlying}
use plank_libvirtualhid.Types.ButtonSet.{ButtonSet}
use plank_libvirtualhid.Types.ButtonSet

abbrev pub same_button : GamepadButton → GamepadButton → Bool
same_button p q = to_underlying p == to_underlying q

to_underlying-lt : (p : GamepadButton) → to_underlying p < 21
unfolding to_underlying
to_underlying-lt GamepadButton.a = omega arith
to_underlying-lt _ = omega arith

-- One test of the packed word is one binary digit of it.
test-bit :
    (s : ButtonSet) (p : GamepadButton) → ButtonSet.test s p ≡ (bit (to_underlying p) s.bits == 1)
unfolding ButtonSet.test
test-bit s p = ground (
  arith,
  and-pow (to_underlying p) s.bits,
  bit-le (to_underlying p) s.bits,
  one-le-pow (to_underlying p) 2,
)

-- The digits of a mask and of its complement in 32 bits, for the 21 buttons.
mask_test : ℕ → ℕ → Bool
mask_test j k =
    (bit j (2 ^ k) == (if j == k then 1 else 0))
    && (bit j (2 ^ 32 - 1 - 2 ^ k) == (if j == k then 0 else 1))

mask_table : passes_below (λ j. passes_below (λ k. mask_test j k) 21) 21 ≡ true
unfolding passes_below mask_test bit
mask_table = refl

mask_digits :
    (j k : ℕ)
    → j < 21
    → k < 21
    → (bit j (2 ^ k) ≡ (if j == k then 1 else 0))
      × (bit j (2 ^ 32 - 1 - 2 ^ k) ≡ (if j == k then 0 else 1))
unfolding mask_test
mask_digits j k hj hk = ground (
  arith,
  passes_at _ 21 k hk (passes_at (λ j. passes_below (λ k. mask_test j k) 21) 21 j hj mask_table),
)

-- Setting or clearing one button changes the test of that button alone.
pub test-set :
    (s : ButtonSet) (p q : GamepadButton) (pressed : Bool)
    → ButtonSet.test (ButtonSet.set s p pressed) q
      ≡ (if same_button p q then pressed else ButtonSet.test s q)
unfolding ButtonSet.set
test-set s p q pressed = ground (
  arith,
  test-bit s q,
  test-bit (ButtonSet.set s p pressed) q,
  mask_digits (to_underlying q) (to_underlying p) (to_underlying-lt q) (to_underlying-lt p),
  bit-or (to_underlying q) s.bits (2 ^ to_underlying p),
  bit-and (to_underlying q) s.bits (2 ^ 32 - 1 - 2 ^ to_underlying p),
  bit-le (to_underlying q) s.bits,
)
