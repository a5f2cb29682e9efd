-- ===== src/Common/Bits.antt =====
-- Single binary digits of native numbers, and how `&` and `|` act on them.
use Prim.Native.Nat.{ℕ, zero, suc, ◌+◌, ◌-◌, ◌*◌, ◌/◌, ◌%◌, ◌^◌, ◌≤◌, ◌<◌, min, max}
use Prim.Native.Nat.{
  bit_and, bit_or, bit_xor, digits, bit_and-bitwise, bit_or-bitwise, bit_xor-bitwise, differ,
}
use mathlib.Core.Path.{◌≡◌, refl, sym, ap, ◌∙◌}
use native.Mathlib.Nat.{pow-suc}
use native.Mathlib.Omega.{arith}

-- The digit of weight `2 ^ k`.
unfoldable pub bit : ℕ → ℕ → ℕ
bit zero x = x % 2
bit (suc k) x = bit k (x / 2)

pub bit-le : (k x : ℕ) → bit k x ≤ 1
unfolding bit
bit-le zero x = omega arith
bit-le (suc k) x = bit-le k (x / 2)

-- The native operations recurse on fuel; a spare unit of it changes nothing.
module _ (rest : ℕ → ℕ) (on_digit : ℕ → ℕ → ℕ) where
  spare_unit :
      (fuel a b : ℕ)
      → a ≤ fuel
      → digits rest on_digit (suc fuel) a b ≡ digits rest on_digit fuel a b
  spare_unit zero zero b h = refl
  spare_unit zero (suc a) b h = elim h [ ]
  spare_unit (suc fuel) zero b h = refl
  spare_unit (suc fuel) (suc a) b h =
      ap (λ high. high * 2 + on_digit (suc a % 2) (b % 2))
        (spare_unit fuel (suc a / 2) (b / 2) (omega arith))

  spare_fuel : (spare a b : ℕ) → digits rest on_digit (spare + a) a b ≡ digits rest on_digit a a b
  spare_fuel zero a b =
      let same : 0 + a ≡ a = omega arith in ap (λ fuel. digits rest on_digit fuel a b) same
  spare_fuel (suc spare) a b =
      let next : suc spare + a ≡ suc (spare + a) = omega arith in
      ap (λ fuel. digits rest on_digit fuel a b) next
      ∙ spare_unit (spare + a) a b (omega arith)
      ∙ spare_fuel spare a b

  last_digit :
      (a b : ℕ)
      → digits rest on_digit (suc a) (suc a) b
        ≡ digits rest on_digit (suc a / 2) (suc a / 2) (b / 2) * 2 + on_digit (suc a % 2) (b % 2)
  last_digit a b =
      let half = suc a / 2 in
      let enough : a - half + half ≡ a = omega arith in
      ap (λ high. high * 2 + on_digit (suc a % 2) (b % 2))
        (ap (λ fuel. digits rest on_digit fuel half (b / 2)) (sym enough)
          ∙ spare_fuel (a - half) half (b / 2))

halves_or : (a b : ℕ) → bit_or a b ≡ bit_or (a / 2) (b / 2) * 2 + max (a % 2) (b % 2)
halves_or zero b = omega (arith, bit_or-bitwise 0 b, bit_or-bitwise 0 (b / 2))
halves_or (suc a) b =
    bit_or-bitwise (suc a) b
    ∙ last_digit (λ b. b) max a b
    ∙ ap (λ high. high * 2 + max (suc a % 2) (b % 2)) (sym (bit_or-bitwise (suc a / 2) (b / 2)))

halves_and : (a b : ℕ) → bit_and a b ≡ bit_and (a / 2) (b / 2) * 2 + min (a % 2) (b % 2)
halves_and zero b = omega (arith, bit_and-bitwise 0 b, bit_and-bitwise 0 (b / 2))
halves_and (suc a) b =
    bit_and-bitwise (suc a) b
    ∙ last_digit (λ b. 0) min a b
    ∙ ap (λ high. high * 2 + min (suc a % 2) (b % 2)) (sym (bit_and-bitwise (suc a / 2) (b / 2)))

pub bit-or : (k a b : ℕ) → bit k (bit_or a b) ≡ max (bit k a) (bit k b)
unfolding bit
bit-or zero a b = omega (arith, halves_or a b)
bit-or (suc k) a b =
    let half : bit_or a b / 2 ≡ bit_or (a / 2) (b / 2) = omega (arith, halves_or a b) in
    rw half (bit-or k (a / 2) (b / 2))

pub bit-and : (k a b : ℕ) → bit k (bit_and a b) ≡ min (bit k a) (bit k b)
unfolding bit
bit-and zero a b = omega (arith, halves_and a b)
bit-and (suc k) a b =
    let half : bit_and a b / 2 ≡ bit_and (a / 2) (b / 2) = omega (arith, halves_and a b) in
    rw half (bit-and k (a / 2) (b / 2))

none_left : (bound a : ℕ) → a ≤ bound → bit_and a 0 ≤ 0
none_left bound zero h = omega (arith, bit_and-bitwise 0 0)
none_left zero (suc a) h = elim h [ ]
none_left (suc bound) (suc a) h =
    let high : suc a / 2 ≤ bound = omega arith in
    omega (arith, halves_and (suc a) 0, none_left bound (suc a / 2) high)

and-zero : (a : ℕ) → bit_and a 0 ≡ 0
and-zero a = omega (arith, none_left a a (omega arith))

-- A mask with one bit set selects that bit.
pub and-pow : (k a : ℕ) → bit_and a (2 ^ k) ≡ bit k a * 2 ^ k
unfolding bit
and-pow zero a = omega (arith, halves_and a 1, and-zero (a / 2))
and-pow (suc k) a =
    let half : 2 ^ suc k / 2 ≡ 2 ^ k = omega (arith, pow-suc 2 k) in
    let even : 2 ^ suc k % 2 ≡ 0 = omega (arith, pow-suc 2 k) in
    omega (
      arith,
      halves_and a (2 ^ suc k),
      and-pow k (a / 2),
      ap (bit_and (a / 2)) half,
      pow-suc 2 k,
      even,
      ap (λ (t : ℕ). bit k (a / 2) * t) (pow-suc 2 k),
    )

halves_xor : (a b : ℕ) → bit_xor a b ≡ bit_xor (a / 2) (b / 2) * 2 + differ (a % 2) (b % 2)
halves_xor zero b = simp bit_xor-bitwise (omega arith)
halves_xor (suc a) b =
    bit_xor-bitwise (suc a) b
    ∙ last_digit (λ b. b) differ a b
    ∙ ap (λ high. high * 2 + differ (suc a % 2) (b % 2)) (sym (bit_xor-bitwise (suc a / 2) (b / 2)))

differ-lt : (x y : ℕ) → x < 2 → y < 2 → differ x y < 2
differ-lt zero y h k = k
differ-lt (suc zero) zero h k = omega arith
differ-lt (suc zero) (suc zero) h k = omega arith
differ-lt (suc zero) (suc (suc y)) h k = absurd (omega arith)
differ-lt (suc (suc x)) y h k = absurd (omega arith)

-- The exclusive or of two `k`-bit numbers has `k` bits.
pub xor-lt : (k a b : ℕ) → a < 2 ^ k → b < 2 ^ k → bit_xor a b < 2 ^ k
xor-lt zero a b h l =
    let a0 : a ≡ 0 = omega arith in let b0 : b ≡ 0 = omega arith in rw (a0, b0) (omega arith)
xor-lt (suc k) a b h l = omega (
  arith,
  halves_xor a b,
  differ-lt (a % 2) (b % 2) (omega arith) (omega arith),
  xor-lt k (a / 2) (b / 2) (omega (arith, pow-suc 2 k)) (omega (arith, pow-suc 2 k)),
  pow-suc 2 k,
)

or-zero : (b : ℕ) → bit_or 0 b ≡ b
or-zero b = bit_or-bitwise 0 b

-- `low | (high << k)` is a sum where `low` has `k` bits.
pub or_shift : (k q r : ℕ) → r < 2 ^ k → bit_or r (q * 2 ^ k) ≡ r + q * 2 ^ k
or_shift zero q r h = let r0 : r ≡ 0 = omega arith in rw r0 (omega (arith, or-zero (q * 1)))
or_shift (suc k) q r h =
    let e : q * 2 ^ suc k ≡ 2 * (q * 2 ^ k) = omega (arith, ap (λ (t : ℕ). q * t) (pow-suc 2 k)) in
    let half : q * 2 ^ suc k / 2 ≡ q * 2 ^ k = omega (arith, e) in
    omega (
      arith,
      halves_or r (q * 2 ^ suc k),
      e,
      ap (bit_or (r / 2)) half,
      or_shift k q (r / 2) (omega (arith, pow-suc 2 k)),
    )

and-le_bound : (n a b : ℕ) → a ≤ n → bit_and a b ≤ a
and-le_bound n zero b h = omega (arith, bit_and-bitwise 0 b)
and-le_bound zero (suc a) b h = absurd (omega arith)
and-le_bound (suc n) (suc a) b h =
    omega (arith, halves_and (suc a) b, and-le_bound n (suc a / 2) (b / 2) (omega arith))

pub and-le : (a b : ℕ) → bit_and a b ≤ a
and-le a b = and-le_bound a a b (omega arith)
