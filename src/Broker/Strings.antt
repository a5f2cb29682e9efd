-- ===== src/Broker/Strings.antt =====
-- The checks on character arrays in src/platform/windows/broker/broker_request_validation.hpp. An
-- array is the list of its characters' codes.
use plank_libvirtualhid.Common.{
  ℕ, zero, suc, ◌-◌, ◌<◌, ◌≡◌, refl, ap, Bool, true, false, not, ◌&&◌, ◌||◌, List, [], ◌∷◌, ◌++◌,
  length, get_or, take, drop, replicate, all_of, leb, ◌==◌, ◌!=◌, if◌then◌else◌, arith,
  length-append,
}

unfoldable pub all_zero : List ℕ → Bool
all_zero values = all_of (λ value. value == 0) values

-- `std::ranges::find(value, '\0')`: a position, the length if there is none.
unfoldable pub find_zero : List ℕ → ℕ
find_zero [] = 0
find_zero (zero ∷ rest) = 0
find_zero (suc c ∷ rest) = suc (find_zero rest)

unfoldable pub valid_c_string : List ℕ → Bool → Bool
unfolding all_zero find_zero
valid_c_string value allow_empty =
    let terminator = find_zero value in
    if terminator == length value || (not allow_empty && terminator == 0)
    then false
    else all_zero (drop (suc terminator) value)

unfoldable pub valid_sized_c_string : List ℕ → ℕ → Bool
unfolding all_zero find_zero
valid_sized_c_string value size =
    if leb (length value) size || get_or value size 0 != 0
    then false
    else if find_zero (take size value) != length (take size value)
    then false
    else all_zero (drop size value)

-- A text of characters other than zero.
abbrev pub IsText : List ℕ → Type 0
IsText [] = Unit
IsText (c ∷ cs) = (0 < c) × IsText cs

-- The two checks agree: a character array with a size is accepted exactly if the size is the
-- position of the first zero, and the array is accepted without a size, empty or not.
pub valid_sized_c_string_lem :
    (value : List ℕ) (size : ℕ)
    → valid_sized_c_string value size ≡ (find_zero value == size && valid_c_string value true)
unfolding valid_sized_c_string valid_c_string find_zero all_zero
valid_sized_c_string_lem [] size = ground arith
valid_sized_c_string_lem (zero ∷ rest) zero = ground arith
valid_sized_c_string_lem (zero ∷ rest) (suc size) = ground arith
valid_sized_c_string_lem (suc c ∷ rest) zero = ground arith
valid_sized_c_string_lem (suc c ∷ rest) (suc size) =
    ground (arith, valid_sized_c_string_lem rest size)

all_zero-replicate :
    (values : List ℕ) → all_zero values ≡ true → values ≡ replicate (length values) 0
unfolding all_zero
all_zero-replicate [] h = refl
all_zero-replicate (zero ∷ rest) h = ap (◌∷◌ 0) (all_zero-replicate rest h)
all_zero-replicate (suc c ∷ rest) h = absurd (ground arith)

-- An array that is accepted with a size holds a text of that size, and zeros after it, at least
-- one of them.
pub valid_sized_c_string-IsText :
    (value : List ℕ) (size : ℕ)
    → valid_sized_c_string value size ≡ true
    → (size < length value)
      × IsText (take size value)
      × (value ≡ take size value ++ replicate (length value - size) 0)
unfolding valid_sized_c_string find_zero all_zero
valid_sized_c_string-IsText [] size h = absurd (ground arith)
valid_sized_c_string-IsText (zero ∷ rest) zero h =
    let whole : length (0 ∷ rest) - 0 ≡ length (0 ∷ rest) = omega arith in
    (omega arith, tt, rw whole (all_zero-replicate (0 ∷ rest) (ground arith)))
valid_sized_c_string-IsText (zero ∷ rest) (suc size) h = absurd (ground arith)
valid_sized_c_string-IsText (suc c ∷ rest) zero h = absurd (ground arith)
valid_sized_c_string-IsText (suc c ∷ rest) (suc size) h =
    let (short, text, padded) = valid_sized_c_string-IsText rest size (ground arith) in
    let same : length (suc c ∷ rest) - suc size ≡ length rest - size = omega arith in
    (omega (arith, short), (omega arith, text), rw same (ap (◌∷◌ (suc c)) padded))

replicate-all_zero : (n : ℕ) → all_zero (replicate n 0) ≡ true
unfolding all_zero
replicate-all_zero zero = refl
replicate-all_zero (suc n) = replicate-all_zero n

find_zero-text :
    (text : List ℕ) (n : ℕ) → IsText text → find_zero (text ++ replicate (suc n) 0) ≡ length text
unfolding find_zero
find_zero-text [] n h = refl
find_zero-text (zero ∷ text) n h = absurd (omega (arith, h.0))
find_zero-text (suc c ∷ text) n h = ap suc (find_zero-text text n h.1)

drop-text :
    (text : List ℕ) (n : ℕ) → drop (suc (length text)) (text ++ replicate (suc n) 0) ≡ replicate n 0
drop-text [] n = refl
drop-text (c ∷ text) n = drop-text text n

valid_c_string-text :
    (text : List ℕ) (n : ℕ) (allow_empty : Bool)
    → IsText text
    → valid_c_string (text ++ replicate (suc n) 0) allow_empty ≡ (allow_empty || length text != 0)
unfolding valid_c_string
valid_c_string-text text n allow_empty h = ground (
  arith,
  find_zero-text text n h,
  ap all_zero (drop-text text n),
  ap (λ k. all_zero (drop (suc k) (text ++ replicate (suc n) 0))) (find_zero-text text n h),
  replicate-all_zero n,
  length-append text (replicate (suc n) 0),
)

-- A text of characters other than zero, with at least one zero after it and nothing else, is
-- accepted with its own length and with no other size, and without a size unless it is empty and
-- an empty one is not allowed.
valid_sized_c_string-text :
    (text : List ℕ) (n size : ℕ) (allow_empty : Bool)
    → IsText text
    → let value = text ++ replicate (suc n) 0 in
      (valid_sized_c_string value size ≡ (length text == size))
      × (valid_c_string value allow_empty ≡ (allow_empty || length text != 0))
valid_sized_c_string-text text n size allow_empty h = (
  ground (
    arith,
    valid_sized_c_string_lem (text ++ replicate (suc n) 0) size,
    valid_c_string-text text n true h,
    find_zero-text text n h,
  ),
  valid_c_string-text text n allow_empty h,
)
