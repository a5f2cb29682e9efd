-- ===== src/Report/SwitchReport.antt =====
-- The decoding of Switch rumble frames in src/core/report.cpp.
use plank_libvirtualhid.Common.{
  ℕ, ◌+◌, ◌-◌, ◌*◌, ◌/◌, ◌%◌, ◌≤◌, ◌<◌, ◌≡◌, refl, Bool, true, ◌&&◌, ◌||◌, Option, none, some, List,
  [], ◌∷◌, length, bit_and, max, ltb, leb, ◌==◌, ◌!=◌, if◌then◌else◌, arith, passes_below,
  passes_at, get_or,
}
use plank_libvirtualhid.Report.Bytes.{byte_at, has_flag}

-- `switch_rumble_amplitudes`
abbrev pub switch_rumble_amplitudes : List ℕ
switch_rumble_amplitudes =
    0 ∷ 514 ∷ 775 ∷ 921 ∷ 1096 ∷ 1303 ∷ 1550 ∷ 1843 ∷ 2192 ∷ 2606 ∷ 3100 ∷ 3686 ∷ 4383 ∷ 5213 ∷ 6199
    ∷ 7372 ∷ 7698 ∷ 8039 ∷ 8395 ∷ 8767 ∷ 9155 ∷ 9560 ∷ 9984 ∷ 10426 ∷ 10887 ∷ 11369 ∷ 11873 ∷ 12398
    ∷ 12947 ∷ 13520 ∷ 14119 ∷ 14744 ∷ 15067 ∷ 15397 ∷ 15734 ∷ 16079 ∷ 16431 ∷ 16790 ∷ 17158 ∷ 17534
    ∷ 17918 ∷ 18310 ∷ 18711 ∷ 19121 ∷ 19540 ∷ 19967 ∷ 20405 ∷ 20851 ∷ 21308 ∷ 21775 ∷ 22251 ∷ 22739
    ∷ 23236 ∷ 23745 ∷ 24265 ∷ 24797 ∷ 25340 ∷ 25894 ∷ 26462 ∷ 27041 ∷ 27633 ∷ 28238 ∷ 28856 ∷ 29488
    ∷ 30134 ∷ 30794 ∷ 31468 ∷ 32157 ∷ 32861 ∷ 33581 ∷ 34316 ∷ 35068 ∷ 35836 ∷ 36620 ∷ 37422 ∷ 38242
    ∷ 39079 ∷ 39935 ∷ 40809 ∷ 41703 ∷ 42616 ∷ 43549 ∷ 44503 ∷ 45477 ∷ 46473 ∷ 47491 ∷ 48531 ∷ 49593
    ∷ 50679 ∷ 51789 ∷ 52923 ∷ 54082 ∷ 55266 ∷ 56476 ∷ 57713 ∷ 58977 ∷ 60268 ∷ 61588 ∷ 62936 ∷ 64315
    ∷ 65535 ∷ []

pub record SwitchRumbleAmplitude : Type 0 where
  pub low_frequency : ℕ
  pub high_frequency : ℕ

-- A read of the table; the decoder's tests keep the index below 101.
unfoldable pub amplitude : ℕ → ℕ
amplitude i = get_or switch_rumble_amplitudes i 0

-- The values that the code computes from the four bytes of a frame.
abbrev high_index : List ℕ → ℕ → ℕ
high_index report offset = bit_and (byte_at report (offset + 1)) 0xFE / 2

abbrev low_value : List ℕ → ℕ → ℕ
low_value report offset = byte_at report (offset + 3)

abbrev low_index : List ℕ → ℕ → ℕ
low_index report offset =
    (low_value report offset - 0x40) * 2
    + (if has_flag (byte_at report (offset + 2)) 0x80 then 1 else 0)

unfoldable pub decode_switch_rumble_frame : List ℕ → ℕ → Option SwitchRumbleAmplitude
decode_switch_rumble_frame report offset =
    if leb 101 (high_index report offset)
      || ltb (low_value report offset) 0x40
      || ltb 0x72 (low_value report offset)
    then none
    else if leb 101 (low_index report offset)
    then none
    else some (record {
      low_frequency = amplitude (low_index report offset);
      high_frequency = amplitude (high_index report offset);
    })

both : Option SwitchRumbleAmplitude → Option SwitchRumbleAmplitude → Option SwitchRumbleAmplitude
both none right = none
both (some l) none = none
both (some l) (some r) = some (record {
  low_frequency = max l.low_frequency r.low_frequency;
  high_frequency = max l.high_frequency r.high_frequency;
})

unfoldable pub decode_switch_rumble_report : List ℕ → Option SwitchRumbleAmplitude
unfolding both
decode_switch_rumble_report report =
    if ltb (length report) 10 || (byte_at report 0 != 0x01 && byte_at report 0 != 0x10)
    then none
    else both (decode_switch_rumble_frame report 2) (decode_switch_rumble_frame report 6)

mask_test : ℕ → Bool
mask_test x = (bit_and x 0xFE / 2 == x / 2) && (bit_and x 0x80 == (if leb 128 x then 128 else 0))

byte_masks : passes_below mask_test 256 ≡ true
unfolding passes_below mask_test
byte_masks = refl

byte_mask :
    (x : ℕ)
    → x < 256
    → (bit_and x 0xFE / 2 ≡ x / 2) × (bit_and x 0x80 ≡ (if leb 128 x then 128 else 0))
unfolding mask_test
byte_mask x h = ground (arith, passes_at mask_test 256 x h byte_masks)

-- A frame as the console sends it, for the table positions of its high and its low band. The
-- unused bits of the frame are free.
pub record IsFrame (report : List ℕ) (offset high low : ℕ) : Type 0 where
  pub spare : ℕ
  pub rest : ℕ
  pub spare_lt : spare < 2
  pub rest_lt : rest < 128
  pub high_byte : byte_at report (offset + 1) ≡ 2 * high + spare
  pub middle_byte : byte_at report (offset + 2) ≡ rest + 128 * (low % 2)
  pub low_byte : byte_at report (offset + 3) ≡ 0x40 + low / 2

frame_indices :
    (report : List ℕ) (offset high low : ℕ)
    → high ≤ 100
    → low ≤ 100
    → IsFrame report offset high low
    → (high_index report offset ≡ high) × (low_index report offset ≡ low)
frame_indices report offset high low h l f = ground (
  arith,
  byte_mask (byte_at report (offset + 1)) (omega (arith, f.high_byte, f.spare_lt)),
  byte_mask (byte_at report (offset + 2)) (omega (arith, f.middle_byte, f.rest_lt)),
  f.high_byte,
  f.middle_byte,
  f.low_byte,
  f.spare_lt,
  f.rest_lt,
)

decode_frame :
    (report : List ℕ) (offset high low : ℕ)
    → high ≤ 100
    → low ≤ 100
    → IsFrame report offset high low
    → decode_switch_rumble_frame report offset
      ≡ some (record { low_frequency = amplitude low; high_frequency = amplitude high })
unfolding decode_switch_rumble_frame
decode_frame report offset high low h l f =
    let i = frame_indices report offset high low h l f in rw (i.0, i.1) (ground (arith, f.low_byte))

-- A rumble report whose two frames carry table positions of at most 100 is decoded to the stronger
-- amplitude of the two sides in each band.
pub decode_switch_rumble_report_lem :
    (report : List ℕ) (left_high left_low right_high right_low : ℕ)
    → 10 ≤ length report
    → (byte_at report 0 == 0x01 || byte_at report 0 == 0x10) ≡ true
    → left_high ≤ 100
    → left_low ≤ 100
    → right_high ≤ 100
    → right_low ≤ 100
    → IsFrame report 2 left_high left_low
    → IsFrame report 6 right_high right_low
    → decode_switch_rumble_report report
      ≡ some (record {
        low_frequency = max (amplitude left_low) (amplitude right_low);
        high_frequency = max (amplitude left_high) (amplitude right_high);
      })
unfolding decode_switch_rumble_report
decode_switch_rumble_report_lem report lh ll rh rl n id a b c d f g =
    rw (decode_frame report 2 lh ll a b f, decode_frame report 6 rh rl c d g) (ground arith)
