-- ===== src/Broker/LicenseText/Decimal.antt =====
-- Numbers are read back as they were written.
use plank_libvirtualhid.Common.{
  ℕ, zero, suc, ◌+◌, ◌*◌, ◌/◌, ◌%◌, ◌^◌, ◌≤◌, ◌<◌, ◌≡◌, refl, ap, ◌∙◌, false, some, [], ◌∷◌,
  is_empty, ltb, if_elim, Text, arith,
}
use plank_libvirtualhid.Broker.Clock.{uint64_max}
use plank_libvirtualhid.Broker.LicenseText.{digits, decimal, from_chars, parse_uint64}

pub from_chars-digit :
    (parsed n : ℕ) (s : Text)
    → n < 10
    → parsed * 10 + n ≤ uint64_max
    → from_chars parsed ((n + 48) ∷ s) ≡ from_chars (parsed * 10 + n) s
unfolding from_chars
from_chars-digit parsed n s d h = ground arith

pub from_chars-digits :
    (fuel n : ℕ) (s : Text)
    → n < 10 ^ fuel
    → n ≤ uint64_max
    → from_chars 0 (digits fuel n s) ≡ from_chars n s
unfolding digits
from_chars-digits zero n s d h = ap (λ m. from_chars m s) (omega arith)
from_chars-digits (suc fuel) n s d h =
    if_elim (λ t. from_chars 0 t ≡ from_chars n s) (ltb n 10)
      (λ small.
        from_chars-digit 0 n s (ground arith) (omega arith)
        ∙ ap (λ m. from_chars m s) (omega arith))
      (λ large.
        from_chars-digits fuel (n / 10) ((n % 10 + 48) ∷ s) (ground arith) (omega arith)
        ∙ from_chars-digit (n / 10) (n % 10) s (omega arith) (omega arith)
        ∙ ap (λ m. from_chars m s) (omega arith))

pub is_empty-digits :
    (fuel n : ℕ) (s : Text) → is_empty s ≡ false → is_empty (digits fuel n s) ≡ false
unfolding digits
is_empty-digits zero n s h = h
is_empty-digits (suc fuel) n s h =
    ground (arith, is_empty-digits fuel (n / 10) ((n % 10 + 48) ∷ s) refl)

pub is_empty-decimal : (n : ℕ) → is_empty (decimal n) ≡ false
unfolding decimal digits
is_empty-decimal n = ground (arith, is_empty-digits 19 (n / 10) ((n % 10 + 48) ∷ []) refl)

pub parse_uint64-decimal : (n : ℕ) → n ≤ uint64_max → parse_uint64 (decimal n) ≡ some n
unfolding parse_uint64 decimal from_chars
parse_uint64-decimal n h = rw (is_empty-decimal n) (from_chars-digits 20 n [] (omega arith) h)
