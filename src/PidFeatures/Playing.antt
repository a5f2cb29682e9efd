-- ===== src/PidFeatures/Playing.antt =====
-- The playing effect of `GenericPidFeatureState`, over histories of reports.
use plank_libvirtualhid.Common.{
  ℕ, zero, suc, ◌-◌, ◌≤◌, ◌≡◌, ◌≢◌, refl, Bool, true, false, ◌||◌, Option, none, some, List, [],
  ◌∷◌, length, get_or, set, is_empty, ltb, ◌==◌, arith, inl, inr, Bool-cases, length-set,
  length-replicate, get_or-set_ne, bit, bit-or, bit-and, bit-le, bit_or,
}
use plank_libvirtualhid.PidFeatures.{
  FeatureState, new_features, max_effects, state_effect_playing, actuators_on, clear_flag,
  first_free, allocate, create_effect, free_effect, effect_operation, device_control, on_first,
  payload, handle_set_feature, handle_output,
}

-- The playing flag of the state report.
abbrev pub is_playing : ℕ → Bool
is_playing flags = bit 5 flags == 1

-- The block that the state report names, if any, is allocated, and an effect plays only while a
-- block is named.
pub record IsPlayable (s : FeatureState) : Type 0 where
  pub pool : length s.allocated ≡ max_effects
  pub named : s.state_effect_block_index ≤ max_effects
  pub taken :
      s.state_effect_block_index ≢ 0
      → get_or s.allocated (s.state_effect_block_index - 1) false ≡ true
  pub playing : is_playing s.state_flags ≡ true → s.state_effect_block_index ≢ 0

-- The bits of the masks in use.
mask_bits :
    (bit 5 0x20 ≡ 1)
    × (bit 5 0xDF ≡ 0)
    × (bit 5 0x12 ≡ 0)
    × (bit 5 0x01 ≡ 0)
    × (bit 5 0xFD ≡ 1)
    × (bit 5 0xFE ≡ 1)
unfolding bit
mask_bits = (refl, refl, refl, refl, refl, refl)

stopped : (flags : ℕ) → is_playing (clear_flag flags state_effect_playing) ≡ false
stopped flags = ground (arith, mask_bits.1, bit-and 5 flags 0xDF)

-- Setting or clearing any other flag keeps the playing flag.
kept :
    (flags : ℕ)
    → (is_playing (bit_or flags actuators_on) ≡ is_playing flags)
      × (is_playing (bit_or flags 0x01) ≡ is_playing flags)
      × (is_playing (clear_flag flags 0x02) ≡ is_playing flags)
      × (is_playing (clear_flag flags 0x01) ≡ is_playing flags)
kept flags =
    let le = bit-le 5 flags in
    (
      ground (arith, le, mask_bits.2, bit-or 5 flags 0x12),
      ground (arith, le, mask_bits.3, bit-or 5 flags 0x01),
      ground (arith, le, mask_bits.4, bit-and 5 flags 0xFD),
      ground (arith, le, mask_bits.5, bit-and 5 flags 0xFE),
    )

on_bits : is_playing actuators_on ≡ false
unfolding bit
on_bits = refl

true_kept :
    (bs : List Bool) (i j : ℕ) → get_or bs j false ≡ true → get_or (set bs i true) j false ≡ true
true_kept [] i j e = e
true_kept (b ∷ bs) zero zero e = refl
true_kept (b ∷ bs) zero (suc j) e = e
true_kept (b ∷ bs) (suc i) zero e = e
true_kept (b ∷ bs) (suc i) (suc j) e = true_kept bs i j e

allocate-IsPlayable : (s : FeatureState) (o : Option ℕ) → IsPlayable s → IsPlayable (allocate s o)
unfolding allocate
allocate-IsPlayable s none v = record {
  pool = v.pool;
  named = v.named;
  taken = v.taken;
  playing = v.playing;
}
allocate-IsPlayable s (some i) v = record {
  pool = omega (arith, v.pool, length-set s.allocated i true);
  named = v.named;
  taken = λ h. true_kept s.allocated i (s.state_effect_block_index - 1) (v.taken h);
  playing = v.playing;
}

create_effect-IsPlayable :
    (bytes : List ℕ) (s : FeatureState) → IsPlayable s → IsPlayable (create_effect bytes s)
unfolding create_effect
create_effect-IsPlayable bytes s v =
    elim (Bool-cases (is_empty bytes || ltb (get_or bytes 0 0) 1 || ltb 12 (get_or bytes 0 0))) [
      | inl e ↦
          rw e (record { pool = v.pool; named = v.named; taken = v.taken; playing = v.playing })
      | inr e ↦ rw e (allocate-IsPlayable s (first_free s.allocated) v)
    ]

free_effect-IsPlayable :
    (index : ℕ) (s : FeatureState) → IsPlayable s → IsPlayable (free_effect index s)
unfolding free_effect
free_effect-IsPlayable index s v = ground (
  arith,
  length-set s.allocated (index - 1) false,
  stopped s.state_flags,
  get_or-set_ne s.allocated (index - 1) (s.state_effect_block_index - 1) false false,
)

effect_operation-IsPlayable :
    (index operation : ℕ) (s : FeatureState)
    → IsPlayable s
    → IsPlayable (effect_operation index operation s)
unfolding effect_operation
effect_operation-IsPlayable index operation s v = ground (arith)

device_control-IsPlayable :
    (command : ℕ) (s : FeatureState) → IsPlayable s → IsPlayable (device_control command s)
unfolding device_control
device_control-IsPlayable command s v = ground (
  arith,
  stopped s.state_flags,
  kept s.state_flags,
  length-replicate (length s.allocated) false,
  on_bits,
)

-- A report that the host sends, by its number and its bytes.
pub data HostReport : Type 0 where
  set_feature : ℕ → List ℕ → HostReport
  output : ℕ → List ℕ → HostReport

unfoldable pub receive : HostReport → FeatureState → FeatureState
receive (set_feature id bytes) s = (handle_set_feature id bytes s).1
receive (output id bytes) s = (handle_output id bytes s).1

unfoldable pub receive_all : List HostReport → FeatureState → FeatureState
receive_all [] s = s
receive_all (r ∷ rs) s = receive_all rs (receive r s)

on_first-IsPlayable :
    (bytes : List ℕ) (call : ℕ → FeatureState → FeatureState) (s : FeatureState)
    → ((b : ℕ) → IsPlayable (call b s))
    → IsPlayable s
    → IsPlayable (on_first bytes call s)
unfolding on_first
on_first-IsPlayable [] call s h v = v
on_first-IsPlayable (b ∷ bytes) call s h v = h b

receive-IsPlayable : (r : HostReport) (s : FeatureState) → IsPlayable s → IsPlayable (receive r s)
unfolding receive handle_set_feature handle_output
receive-IsPlayable (set_feature id report) s v =
    let bytes = payload id report in
    ground (
      arith,
      create_effect-IsPlayable bytes s v,
      on_first-IsPlayable bytes free_effect s (λ b. free_effect-IsPlayable b s v) v,
      on_first-IsPlayable bytes device_control s (λ b. device_control-IsPlayable b s v) v,
    )
receive-IsPlayable (output id report) s v =
    let bytes = payload id report in
    ground (
      arith,
      effect_operation-IsPlayable (get_or bytes 0 0) (get_or bytes 1 0) s v,
      on_first-IsPlayable bytes free_effect s (λ b. free_effect-IsPlayable b s v) v,
      on_first-IsPlayable bytes device_control s (λ b. device_control-IsPlayable b s v) v,
    )

receive_all-IsPlayable :
    (rs : List HostReport) (s : FeatureState) → IsPlayable s → IsPlayable (receive_all rs s)
unfolding receive_all
receive_all-IsPlayable [] s v = v
receive_all-IsPlayable (r ∷ rs) s v =
    receive_all-IsPlayable rs (receive r s) (receive-IsPlayable r s v)

-- After any history of feature and output reports to a new device, the pool has its 40 blocks, the
-- block that the state report names is allocated, and the playing flag is set only while it names
-- one.
pub receive_all-new_features : (rs : List HostReport) → IsPlayable (receive_all rs new_features)
receive_all-new_features rs = receive_all-IsPlayable rs new_features (record {
  pool = refl;
  named = omega arith;
  taken = λ h. absurd (h refl);
  playing = λ h. cc (on_bits, h);
})
