-- ===== src/Report/Crc.antt =====
-- `crc32` and the checksum of the PlayStation Bluetooth reports, in src/core/report.cpp.
use plank_libvirtualhid.Common.{
  ℕ, zero, suc, ◌+◌, ◌-◌, ◌/◌, ◌%◌, ◌^◌, ◌≤◌, ◌<◌, ◌≡◌, refl, ap, ◌∙◌, Bool, List, [], ◌∷◌, length,
  take, set, bit_and, bit_xor, xor-lt, and-le, true, ==_refl, ltb, ◌==◌, if◌then◌else◌, arith,
  AreBytes,
}
use plank_libvirtualhid.Report.Bytes.{write_u32, read_u32, length-write_u32, read_u32-write_u32}

-- One round of the inner loop; `0U - (crc & 1U)` wraps to all ones.
crc_bit : ℕ → ℕ
crc_bit crc =
    let mask = (2 ^ 32 - bit_and crc 1) % 2 ^ 32 in bit_xor (crc / 2) (bit_and 0xEDB88320 mask)

crc_bits : ℕ → ℕ → ℕ
unfolding crc_bit
crc_bits zero crc = crc
crc_bits (suc n) crc = crc_bits n (crc_bit crc)

crc_bytes : List ℕ → ℕ → ℕ
unfolding crc_bits
crc_bytes [] crc = crc
crc_bytes (value ∷ rest) crc = crc_bytes rest (crc_bits 8 (bit_xor crc value))

unfoldable pub crc32 : List ℕ → ℕ → ℕ
unfolding crc_bytes
crc32 buffer seed = bit_xor (crc_bytes buffer (bit_xor seed 0xFFFFFFFF)) 0xFFFFFFFF

unfoldable pub playstation_crc_seed : ℕ → ℕ
unfolding crc32
playstation_crc_seed seed = crc32 (seed ∷ []) 0

pub write_playstation_crc : List ℕ → ℕ → List ℕ
write_playstation_crc report seed =
    if ltb (length report) 4
    then report
    else write_u32 report (length report - 4)
        (crc32 (take (length report - 4) report) (playstation_crc_seed seed))

-- The comparison that both parsers make before they accept a report.
pub crc_matches : List ℕ → ℕ → Bool
crc_matches report seed =
    read_u32 report (length report - 4)
    == crc32 (take (length report - 4) report) (playstation_crc_seed seed)

crc_bit-lt : (crc : ℕ) → crc < 2 ^ 32 → crc_bit crc < 2 ^ 32
unfolding crc_bit
crc_bit-lt crc h =
    let mask = (2 ^ 32 - bit_and crc 1) % 2 ^ 32 in
    xor-lt 32 (crc / 2) (bit_and 0xEDB88320 mask) (omega arith)
      (omega (arith, and-le 0xEDB88320 mask))

crc_bits-lt : (n crc : ℕ) → crc < 2 ^ 32 → crc_bits n crc < 2 ^ 32
unfolding crc_bits
crc_bits-lt zero crc h = h
crc_bits-lt (suc n) crc h = crc_bits-lt n (crc_bit crc) (crc_bit-lt crc h)

crc_bytes-lt :
    (buffer : List ℕ) (crc : ℕ) → AreBytes buffer → crc < 2 ^ 32 → crc_bytes buffer crc < 2 ^ 32
unfolding crc_bytes
crc_bytes-lt [] crc b h = h
crc_bytes-lt (value ∷ rest) crc b h =
    crc_bytes-lt rest (crc_bits 8 (bit_xor crc value)) b.1
      (crc_bits-lt 8 (bit_xor crc value) (xor-lt 32 crc value h (omega (arith, b.0))))

crc32-lt :
    (buffer : List ℕ) (seed : ℕ) → AreBytes buffer → seed < 2 ^ 32 → crc32 buffer seed < 2 ^ 32
unfolding crc32
crc32-lt buffer seed b h =
    let start = bit_xor seed 0xFFFFFFFF in
    xor-lt 32 (crc_bytes buffer start) 0xFFFFFFFF
      (crc_bytes-lt buffer start b (xor-lt 32 seed 0xFFFFFFFF h (omega arith))) (omega arith)

take-AreBytes : (n : ℕ) (xs : List ℕ) → AreBytes xs → AreBytes (take n xs)
take-AreBytes zero xs b = tt
take-AreBytes (suc n) [] b = tt
take-AreBytes (suc n) (x ∷ xs) b = (b.0, take-AreBytes n xs b.1)

take-set : (n o v : ℕ) (xs : List ℕ) → n ≤ o → take n (set xs o v) ≡ take n xs
take-set zero o v xs h = refl
take-set (suc n) o v [] h = refl
take-set (suc n) zero v (x ∷ xs) h = absurd (omega arith)
take-set (suc n) (suc o) v (x ∷ xs) h = ap (◌∷◌ x) (take-set n o v xs (omega arith))

take-write_u32 : (n v : ℕ) (r : List ℕ) → take n (write_u32 r n v) ≡ take n r
unfolding write_u32
take-write_u32 n v r =
    let r0 = set r n (v % 256) in
    let r1 = set r0 (n + 1) (v / 2 ^ 8 % 256) in
    let r2 = set r1 (n + 2) (v / 2 ^ 16 % 256) in
    take-set n (n + 3) (v / 2 ^ 24 % 256) r2 (omega arith)
    ∙ take-set n (n + 2) (v / 2 ^ 16 % 256) r1 (omega arith)
    ∙ take-set n (n + 1) (v / 2 ^ 8 % 256) r0 (omega arith)
    ∙ take-set n n (v % 256) r (omega arith)

playstation_crc_seed-lt : (seed : ℕ) → seed < 256 → playstation_crc_seed seed < 2 ^ 32
unfolding playstation_crc_seed
playstation_crc_seed-lt seed h = crc32-lt (seed ∷ []) 0 (h, tt) (omega arith)

crc_matches-write_u32 :
    (report : List ℕ) (seed : ℕ)
    → 4 ≤ length report
    → AreBytes report
    → seed < 256
    → let n = length report - 4 in
      crc_matches (write_u32 report n (crc32 (take n report) (playstation_crc_seed seed))) seed
      ≡ true
unfolding crc_matches
crc_matches-write_u32 report seed h b s =
    let n = length report - 4 in
    let c = crc32 (take n report) (playstation_crc_seed seed) in
    rw (
      length-write_u32 report n c,
      take-write_u32 n c report,
      read_u32-write_u32 report n c (omega arith) (
          crc32-lt (take n report) (playstation_crc_seed seed) (take-AreBytes n report b)
            (playstation_crc_seed-lt seed s)),
      ==_refl,
    )

written :
    (report : List ℕ) (seed : ℕ)
    → 4 ≤ length report
    → let n = length report - 4 in
      write_playstation_crc report seed
      ≡ write_u32 report n (crc32 (take n report) (playstation_crc_seed seed))
unfolding write_playstation_crc
written report seed h = ground arith

-- A report of at least four bytes carries, once its checksum is written, the checksum that the
-- parsers expect under the same seed, and only its last four bytes have changed.
pub write_playstation_crc_lem :
    (report : List ℕ) (seed : ℕ)
    → 4 ≤ length report
    → AreBytes report
    → seed < 256
    → (crc_matches (write_playstation_crc report seed) seed ≡ true)
      × (length (write_playstation_crc report seed) ≡ length report)
      × (take (length report - 4) (write_playstation_crc report seed)
          ≡ take (length report - 4) report)
write_playstation_crc_lem report seed h b s =
    let n = length report - 4 in
    let c = crc32 (take n report) (playstation_crc_seed seed) in
    rw (written report seed h) (
      crc_matches-write_u32 report seed h b s,
      length-write_u32 report n c,
      take-write_u32 n c report,
    )
