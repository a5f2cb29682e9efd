-- ===== src/PidFeatures/Pool.antt =====
-- The pool of effect blocks of `GenericPidFeatureState`.
use plank_libvirtualhid.Common.{
  ℕ, zero, suc, ◌+◌, ◌≤◌, ◌<◌, ◌≡◌, refl, ap, Bool, true, false, ◌||◌, Option, none, some, List, [],
  ◌∷◌, length, get_or, set, ltb, arith, length-set,
}
use plank_libvirtualhid.PidFeatures.{
  FeatureState, first_free, allocate, create_effect, count_true, ram_pool_available, max_effects,
}

-- The block that the loop finds is inside the pool and free.
first_free-some :
    (bs : List Bool) (i : ℕ)
    → first_free bs ≡ some i
    → (i < length bs) × (get_or bs i false ≡ false) × (get_or bs i true ≡ false)
unfolding first_free
first_free-some [] i e = cc
first_free-some (false ∷ bs) i e = ground arith
first_free-some (true ∷ bs) zero e = ground arith
first_free-some (true ∷ bs) (suc i) e = ground (arith, first_free-some bs i)

first_free-none : (bs : List Bool) → first_free bs ≡ none → count_true bs ≡ length bs
unfolding first_free count_true
first_free-none [] e = refl
first_free-none (false ∷ bs) e = cc
first_free-none (true ∷ bs) e = ground (arith, first_free-none bs)

count_true-set :
    (bs : List Bool) (i : ℕ)
    → i < length bs
    → get_or bs i true ≡ false
    → count_true (set bs i true) ≡ suc (count_true bs)
unfolding count_true
count_true-set [] i h e = elim h [ ]
count_true-set (false ∷ bs) zero h e = refl
count_true-set (true ∷ bs) zero h e = cc
count_true-set (false ∷ bs) (suc i) h e = count_true-set bs i (omega arith) e
count_true-set (true ∷ bs) (suc i) h e = ap suc (count_true-set bs i (omega arith) e)

count_true-le : (bs : List Bool) → count_true bs ≤ length bs
unfolding count_true
count_true-le [] = omega arith
count_true-le (false ∷ bs) = omega (arith, count_true-le bs)
count_true-le (true ∷ bs) = omega (arith, count_true-le bs)

-- What the block load report says, given the pools before and after: a block that was free is now
-- taken, no other has changed, and one block fewer is available; or nothing has changed.
pub data Loaded (s t : FeatureState) : Type 0 where
  granted :
      (i : ℕ)
      → t.load_status ≡ 1
      → t.last_effect_block_index ≡ i + 1
      → i < length s.allocated
      → get_or s.allocated i true ≡ false
      → t.allocated ≡ set s.allocated i true
      → ram_pool_available t + 1 ≡ ram_pool_available s
      → Loaded s t
  full :
      t.load_status ≡ 2
      → t.last_effect_block_index ≡ 0
      → count_true s.allocated ≡ length s.allocated
      → t.allocated ≡ s.allocated
      → Loaded s t

allocate-Loaded :
    (s : FeatureState) (o : Option ℕ)
    → length s.allocated ≡ max_effects
    → first_free s.allocated ≡ o
    → Loaded s (allocate s o)
unfolding allocate ram_pool_available
allocate-Loaded s none h e = full refl refl (first_free-none s.allocated e) refl
allocate-Loaded s (some i) h e =
    let (inside, free, free') = first_free-some s.allocated i e in
    granted i refl (omega arith) inside free' refl (
      omega (
        arith,
        count_true-set s.allocated i inside free',
        count_true-le s.allocated,
        count_true-le (set s.allocated i true),
        length-set s.allocated i true,
      ))

-- Creating an effect of a known type takes a free block of the pool and answers with its
-- index, from 1, or answers that the pool is full exactly when every block is taken; the block
-- that is granted was free, so no two effects share one.
pub create_effect-Loaded :
    (bytes : List ℕ) (s : FeatureState)
    → length s.allocated ≡ max_effects
    → 1 ≤ length bytes
    → 1 ≤ get_or bytes 0 0
    → get_or bytes 0 0 ≤ 12
    → Loaded s (create_effect bytes s)
unfolding create_effect
create_effect-Loaded [] s h n a b = absurd (omega arith)
create_effect-Loaded (k ∷ bytes) s h n a b =
    let small : (ltb k 1 || ltb 12 k) ≡ false = ground arith in
    rw small (allocate-Loaded s (first_free s.allocated) h refl)
