-- ===== src/Types/ButtonSet.antt =====
-- `ButtonSet` of src/include/libvirtualhid/types.hpp and src/core/types.cpp.
use plank_libvirtualhid.Common.{ℕ, ◌-◌, ◌^◌, Bool, false, bit_and, bit_or, ◌!=◌, if◌then◌else◌}
use plank_libvirtualhid.Types.{GamepadButton, to_underlying}

-- `ButtonSet`, an `std::uint32_t` of bits.
pub record ButtonSet : Type 0 where
  pub bits : ℕ

abbrev pub no_buttons : ButtonSet
no_buttons = record { bits = 0 }

-- `~mask` is the complement in 32 bits.
unfoldable pub set : ButtonSet → GamepadButton → Bool → ButtonSet
set s button pressed =
    let mask = 2 ^ to_underlying button in
    if pressed
    then record { bits = bit_or s.bits mask }
    else record { bits = bit_and s.bits (2 ^ 32 - 1 - mask) }

unfoldable pub reset : ButtonSet → GamepadButton → ButtonSet
reset s button = set s button false

unfoldable pub clear : ButtonSet → ButtonSet
clear s = record { bits = 0 }

unfoldable pub test : ButtonSet → GamepadButton → Bool
test s button = bit_and s.bits (2 ^ to_underlying button) != 0

unfoldable pub raw_bits : ButtonSet → ℕ
raw_bits s = s.bits
