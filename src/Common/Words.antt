-- ===== src/Common/Words.antt =====
-- Bytes: a predicate for sequences of them, and proof by a table over all values.
use Prim.Native.Nat.{ℕ, zero, suc, ◌<◌}
use mathlib.Core.Path.{◌≡◌}
use mathlib.Core.Bool.{Bool, true, ◌&&◌}
use mathlib.Core.List.{List, [], ◌∷◌}
use native.Mathlib.Omega.{arith}

-- Every element is a byte.
abbrev pub AreBytes : List ℕ → Type 0
AreBytes [] = Unit {0}
AreBytes (x ∷ xs) = (x < 256) × AreBytes xs

-- A test that evaluation passes on the whole range `0 … bound - 1`.
unfoldable pub passes_below : (ℕ → Bool) → ℕ → Bool
passes_below test zero = true
passes_below test (suc top) = passes_below test top && test top

pub passes_at :
    (test : ℕ → Bool) (bound value : ℕ)
    → value < bound
    → passes_below test bound ≡ true
    → test value ≡ true
unfolding passes_below
passes_at test zero value inside table = elim inside [ ]
passes_at test (suc top) value inside table = ground (arith, passes_at test top value)

-- The integers over the native numbers; `negsuc n` is `-1 - n`.
pub data ℤ : Type 0 where
  pos : ℕ → ℤ
  negsuc : ℕ → ℤ
