-- ===== src/PidRumble/Force.antt =====
-- `generic_pid_detail::scale_force` and `read_u16` of
-- src/platform/windows/shared/generic_pid_rumble.hpp and generic_pid_protocol.hpp.
use plank_libvirtualhid.Common.Float.{Float}
use plank_libvirtualhid.Common.{ℕ, ◌+◌, ◌-◌, ◌*◌, ◌%◌, ◌^◌, List, get_or, min, ltb, if◌then◌else◌}

unfoldable pub read_u16 : List ℕ → ℕ → ℕ
read_u16 report offset = (get_or report offset 0 + get_or report (offset + 1) 0 * 256) % 2 ^ 16

-- `std::abs(static_cast<int>(value))` of an `std::int16_t` given by its bit pattern.
abbrev pub abs_i16 : ℕ → ℕ
abs_i16 w = if ltb w (2 ^ 15) then w else 2 ^ 16 - w

module _ (double : Float) where
  open double use {of_ℕ, mul, div, clamp, lround}

  unfoldable pub scale_force : ℕ → ℕ → ℕ → ℕ
  scale_force value effect_gain device_gain =
      let magnitude = min (abs_i16 value) 10000 in
      let scaled =
        mul
          (mul (mul (div (of_ℕ magnitude) (of_ℕ 10000)) (of_ℕ 65535))
            (div (of_ℕ effect_gain) (of_ℕ 255)))
          (div (of_ℕ device_gain) (of_ℕ 255)) in
      lround (clamp scaled (of_ℕ 0) (of_ℕ 65535)) % 2 ^ 16
