-- ===== src/Broker/LicenseText/Lines.antt =====
-- A line that was written is read as one.
use plank_libvirtualhid.Common.{
  ℕ, zero, suc, ◌+◌, ◌/◌, ◌%◌, ◌≤◌, ◌≡◌, refl, sym, ap, subst, ◌∙◌, Bool, true, false, none, some,
  [], ◌∷◌, ◌++◌, length, is_empty, ltb, if_elim, ==_refl, Text, arith, all_of, length-append, ◌!=◌,
}
use plank_libvirtualhid.Broker.License.{PolarLicenseState}
use plank_libvirtualhid.Broker.LicenseText.{
  digits, line, split_at, set_field, set_split, read_line, deserialize_lines,
}

-- Texts without a byte.
abbrev pub without_byte : ℕ → Text → Bool
without_byte c s = all_of (λ x. x != c) s

pub split_at-append :
    (c : ℕ) (s rest : Text)
    → without_byte c s ≡ true
    → split_at c (s ++ (c ∷ rest)) ≡ (s, some rest)
unfolding split_at
split_at-append c [] rest h = rw (==_refl c) refl
split_at-append c (x ∷ s) rest h = ground (arith, split_at-append c s rest)

pub split_at-none : (c : ℕ) (s : Text) → without_byte c s ≡ true → split_at c s ≡ (s, none)
unfolding split_at
split_at-none c [] h = refl
split_at-none c (x ∷ s) h = ground (arith, split_at-none c s)

pub without_byte-digits :
    (fuel n : ℕ) (s : Text)
    → without_byte b'\n' s ≡ true
    → without_byte b'\n' (digits fuel n s) ≡ true
unfolding digits
without_byte-digits zero n s h = h
without_byte-digits (suc fuel) n s h =
    if_elim (λ t. without_byte b'\n' t ≡ true) (ltb n 10) (λ _. ground (arith, h))
      (λ _. without_byte-digits fuel (n / 10) ((n % 10 + 48) ∷ s) (ground (arith, h)))

pub without_byte-append :
    (c : ℕ) (s t : Text)
    → without_byte c s ≡ true
    → without_byte c t ≡ true
    → without_byte c (s ++ t) ≡ true
without_byte-append c [] t h k = k
without_byte-append c (x ∷ s) t h k = ground (arith, without_byte-append c s t)

pub Text-++_assoc : (xs ys zs : Text) → (xs ++ ys) ++ zs ≡ xs ++ (ys ++ zs)
Text-++_assoc [] ys zs = refl
Text-++_assoc (x ∷ xs) ys zs = ap (λ t. x ∷ t) (Text-++_assoc xs ys zs)

-- With enough fuel for a text, reading it makes `final` of `state`.
unfoldable pub Reads : Text → PolarLicenseState → PolarLicenseState → Type 0
Reads t state final = (fuel : ℕ) → length t ≤ fuel → deserialize_lines fuel t state ≡ final

pub Reads-nil : (state : PolarLicenseState) → Reads [] state state
unfolding Reads deserialize_lines
Reads-nil state zero h = refl
Reads-nil state (suc fuel) h = refl

-- A text whose first line is read, and is not the last.
pub deserialize_lines-read :
    (fuel : ℕ) (t rest : Text) (state after : PolarLicenseState)
    → is_empty t ≡ false
    → read_line t state ≡ (after, some rest)
    → deserialize_lines (suc fuel) t state ≡ deserialize_lines fuel rest after
unfolding deserialize_lines
deserialize_lines-read fuel [] rest state after n e = cc
deserialize_lines-read fuel (x ∷ t) rest state after n e =
    subst
      (λ r.
        elim r.1 [ none ↦ r.0 | some left ↦ deserialize_lines fuel left r.0 ]
        ≡ deserialize_lines fuel rest after)
      (sym e) refl

pub read_line-line :
    (key value rest : Text) (state : PolarLicenseState)
    → without_byte b'=' key ≡ true
    → without_byte b'\n' key ≡ true
    → without_byte b'\n' value ≡ true
    → read_line (line key value rest) state ≡ (set_field key value state, some rest)
unfolding read_line line set_split
read_line-line key value rest state k n v =
    rw
      (
        sym (Text-++_assoc key (b'=' ∷ value) (b'\n' ∷ rest)),
        split_at-append b'\n' (key ++ (b'=' ∷ value)) rest
            (without_byte-append b'\n' key (b'=' ∷ value) n (ground (arith, v))),
        split_at-append b'=' key value k,
      )
      refl

pub length-line : (key value rest : Text) → suc (length rest) ≤ length (line key value rest)
unfolding line
length-line key value rest = omega (
  arith,
  length-append key (b'=' ∷ (value ++ (b'\n' ∷ rest))),
  length-append value (b'\n' ∷ rest),
)

pub is_empty-line : (key value rest : Text) → is_empty (line key value rest) ≡ false
unfolding line
is_empty-line [] value rest = refl
is_empty-line (x ∷ key) value rest = refl

pub Reads-line :
    (key value rest : Text) (state final : PolarLicenseState)
    → without_byte b'=' key ≡ true
    → without_byte b'\n' key ≡ true
    → without_byte b'\n' value ≡ true
    → Reads rest (set_field key value state) final
    → Reads (line key value rest) state final
unfolding Reads
Reads-line key value rest state final k n v r zero h =
    absurd (omega (arith, length-line key value rest))
Reads-line key value rest state final k n v r (suc fuel) h =
    deserialize_lines-read fuel (line key value rest) rest state (set_field key value state)
      (is_empty-line key value rest) (read_line-line key value rest state k n v)
    ∙ r fuel (omega (arith, length-line key value rest))
