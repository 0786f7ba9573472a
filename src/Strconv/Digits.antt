-- ===== src/Strconv/Digits.antt =====
-- What `ParseUint` accepts, against the number that the digits spell.
use point_c.Base.{ℕ, ◌+◌, ◌-◌, ◌*◌, ◌≤◌, ◌<◌, ◌≡◌, refl, [], ◌∷◌, arith, Bytes, ok, All}
use point_c.Strconv.{u64_mod, max_val, scan, parse_uint}

abbrev pub IsDigit : ℕ → Type 0
IsDigit c = (b'0' ≤ c) × (c ≤ b'9')

-- The number that digits spell behind `n`, with no bound.
abbrev pub value : ℕ → Bytes → ℕ
value n [] = n
value n (c ∷ s) = value (n * 10 + (c - b'0')) s

-- More digits make no smaller number.
value_grows : (seen : ℕ) (left : Bytes) → seen ≤ value seen left
value_grows seen [] = omega arith
value_grows seen (digit ∷ left) = omega (arith, value_grows (seen * 10 + (digit - b'0')) left)

scan_sound :
    (top : ℕ) (s : Bytes) (n r : ℕ)
    → top < u64_mod
    → n ≤ top
    → scan top s n ≡ ok r
    → All IsDigit s × (r ≡ value n s) × (r ≤ top)
unfolding scan
scan_sound top [] n r t fits h = ground arith
scan_sound top (c ∷ s) n r t fits h = ground (arith, scan_sound top s (n * 10 + (c - b'0')) r)

scan_complete :
    (top : ℕ) (s : Bytes) (n : ℕ)
    → top < u64_mod
    → All IsDigit s
    → value n s ≤ top
    → scan top s n ≡ ok (value n s)
unfolding scan
scan_complete top [] n t _ _ = refl
scan_complete top (c ∷ s) n t (hc, hs) fits =
    let m = n * 10 + (c - b'0') in ground (arith, scan_complete top s m t hs fits, value_grows m s)

-- An accepted text is digits only, and the result is the number that they spell, within the width.
pub parse_uint_sound :
    (bits : ℕ) (s : Bytes) (r : ℕ)
    → max_val bits < u64_mod
    → parse_uint bits s ≡ ok r
    → All IsDigit s × (r ≡ value 0 s) × (r ≤ max_val bits)
unfolding parse_uint
parse_uint_sound bits [] r t h = cc
parse_uint_sound bits (c ∷ s) r t h = scan_sound (max_val bits) (c ∷ s) 0 r t (omega arith) h

-- Every text of one or more digits whose number fits the width is accepted.
pub parse_uint_complete :
    (bits c : ℕ) (s : Bytes)
    → max_val bits < u64_mod
    → All IsDigit (c ∷ s)
    → value 0 (c ∷ s) ≤ max_val bits
    → parse_uint bits (c ∷ s) ≡ ok (value 0 (c ∷ s))
unfolding parse_uint
parse_uint_complete bits c s t h fits = scan_complete (max_val bits) (c ∷ s) 0 t h fits
