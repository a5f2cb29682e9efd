-- ===== src/Report/Bytes.antt =====
-- Reading and writing of bytes and little-endian words in src/core/report.cpp. A `std::byte` and an
-- `std::uint8_t` are both a number below 256, so `to_byte`, `to_uint8` and the copies of a report
-- between the two are the identity.
use plank_libvirtualhid.Common.{
  ℕ, ◌+◌, ◌*◌, ◌/◌, ◌%◌, ◌^◌, ◌<◌, ◌≡◌, Bool, List, [], ◌∷◌, ◌++◌, length, get_or, set, length-set,
  get_or-set_self, get_or-set_ne, bit_and, bit_or, or_shift, ◌!=◌, arith,
}

abbrev pub byte_at : List ℕ → ℕ → ℕ
byte_at report offset = get_or report offset 0

abbrev pub to_low_byte : ℕ → ℕ
to_low_byte value = value % 256

abbrev pub has_flag : ℕ → ℕ → Bool
has_flag value flag = bit_and value flag != 0

abbrev pub add_flag : List ℕ → ℕ → ℕ → List ℕ
add_flag report offset flag = set report offset (bit_or (byte_at report offset) flag)

unfoldable pub write_u16 : List ℕ → ℕ → ℕ → List ℕ
write_u16 report offset value =
    set (set report offset (to_low_byte value)) (offset + 1) (to_low_byte (value / 2 ^ 8))

unfoldable pub write_u32 : List ℕ → ℕ → ℕ → List ℕ
write_u32 report offset value =
    set
      (set (set (set report offset (to_low_byte value)) (offset + 1) (to_low_byte (value / 2 ^ 8)))
        (offset + 2) (to_low_byte (value / 2 ^ 16)))
      (offset + 3) (to_low_byte (value / 2 ^ 24))

unfoldable pub read_u16 : List ℕ → ℕ → ℕ
read_u16 report offset =
    bit_or (byte_at report offset) (byte_at report (offset + 1) * 2 ^ 8 % 2 ^ 16) % 2 ^ 16

unfoldable pub read_u32 : List ℕ → ℕ → ℕ
read_u32 report offset =
    bit_or
      (bit_or (bit_or (byte_at report offset) (byte_at report (offset + 1) * 2 ^ 8))
        (byte_at report (offset + 2) * 2 ^ 16))
      (byte_at report (offset + 3) * 2 ^ 24)

pub append_u16 : List ℕ → ℕ → List ℕ
append_u16 report value = (report ++ value % 256 ∷ []) ++ value / 2 ^ 8 % 256 ∷ []

pub length-write_u32 : (r : List ℕ) (o v : ℕ) → length (write_u32 r o v) ≡ length r
unfolding write_u32
length-write_u32 r o v =
    let r0 = set r o (v % 256) in
    let r1 = set r0 (o + 1) (v / 2 ^ 8 % 256) in
    let r2 = set r1 (o + 2) (v / 2 ^ 16 % 256) in
    omega (
      arith,
      length-set r o (v % 256),
      length-set r0 (o + 1) (v / 2 ^ 8 % 256),
      length-set r1 (o + 2) (v / 2 ^ 16 % 256),
      length-set r2 (o + 3) (v / 2 ^ 24 % 256),
    )

-- The four bytes of a written word.
pub bytes-write_u32 :
    (r : List ℕ) (o v : ℕ)
    → o + 3 < length r
    → (byte_at (write_u32 r o v) o ≡ v % 256)
      × (byte_at (write_u32 r o v) (o + 1) ≡ v / 2 ^ 8 % 256)
      × (byte_at (write_u32 r o v) (o + 2) ≡ v / 2 ^ 16 % 256)
      × (byte_at (write_u32 r o v) (o + 3) ≡ v / 2 ^ 24 % 256)
unfolding write_u32
bytes-write_u32 r o v h =
    let a = v % 256 in
    let b = v / 2 ^ 8 % 256 in
    let c = v / 2 ^ 16 % 256 in
    let d = v / 2 ^ 24 % 256 in
    let r0 = set r o a in
    let r1 = set r0 (o + 1) b in
    let r2 = set r1 (o + 2) c in
    let n0 = length-set r o a in
    let n1 = length-set r0 (o + 1) b in
    let n2 = length-set r1 (o + 2) c in
    (
      omega (
        arith,
        get_or-set_ne r2 (o + 3) o d 0 (omega arith),
        get_or-set_ne r1 (o + 2) o c 0 (omega arith),
        get_or-set_ne r0 (o + 1) o b 0 (omega arith),
        get_or-set_self r o a 0 (omega arith),
      ),
      omega (
        arith,
        get_or-set_ne r2 (o + 3) (o + 1) d 0 (omega arith),
        get_or-set_ne r1 (o + 2) (o + 1) c 0 (omega arith),
        get_or-set_self r0 (o + 1) b 0 (omega (arith, n0)),
      ),
      omega (
        arith,
        get_or-set_ne r2 (o + 3) (o + 2) d 0 (omega arith),
        get_or-set_self r1 (o + 2) c 0 (omega (arith, n0, n1)),
      ),
      get_or-set_self r2 (o + 3) d 0 (omega (arith, n0, n1, n2)),
    )

-- Reading back a word where it was written gives the word.
pub read_u32-write_u32 :
    (r : List ℕ) (o v : ℕ) → o + 3 < length r → v < 2 ^ 32 → read_u32 (write_u32 r o v) o ≡ v
unfolding read_u32
read_u32-write_u32 r o v h w =
    let b = bytes-write_u32 r o v h in
    rw
      (
        b.0,
        b.1,
        b.2,
        b.3,
        or_shift 8 (v / 2 ^ 8 % 256) (v % 256) (omega arith),
        or_shift 16 (v / 2 ^ 16 % 256) (v % 256 + v / 2 ^ 8 % 256 * 2 ^ 8) (omega arith),
        or_shift 24 (v / 2 ^ 24 % 256)
            (v % 256 + v / 2 ^ 8 % 256 * 2 ^ 8 + v / 2 ^ 16 % 256 * 2 ^ 16) (omega arith),
      )
      (omega arith)

pub length-write_u16 : (r : List ℕ) (o v : ℕ) → length (write_u16 r o v) ≡ length r
unfolding write_u16
length-write_u16 r o v =
    omega
      (arith, length-set r o (v % 256), length-set (set r o (v % 256)) (o + 1) (v / 2 ^ 8 % 256))
