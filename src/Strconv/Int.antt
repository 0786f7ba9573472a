-- ===== src/Strconv/Int.antt =====
-- Signed 64-bit integers: their type, `ParseInt` and `Itoa`.
use point_c.Base.{
  arith, panic, Bool-cases, inl, inr, ℕ, suc, ◌-◌, ◌^◌, ◌<◌, ◌≡◌, refl, Bool, true, false, [], ◌∷◌,
  ltb, leb, ◌==◌, if◌then◌else◌, Bytes, codes, Result, ok, err, ◌>>=◌, new,
}
use point_c.Strconv.{parse_uint, format_uint, u64_mod}

-- `negsuc n` is -(n + 1).
pub data ℤ : Type 0 where
  pos : ℕ → ℤ
  negsuc : ℕ → ℤ

abbrev pub i64_half : ℕ
i64_half = 2 ^ 63

-- The values of an `int64`.
abbrev pub IsInt64 : ℤ → Type 0
IsInt64 (pos n) = n < i64_half
IsInt64 (negsuc n) = n < i64_half

-- The end of `ParseInt`: the sign and the number behind it.
unfoldable pub signed : Bool → ℕ → Result ℤ
signed neg un =
    if neg
    then (if ltb i64_half un
        then err (new "value out of range")
        else if un == 0
        then ok (pos 0)
        else ok (negsuc (un - 1)))
    else if leb i64_half un
    then err (new "value out of range")
    else ok (pos un)

-- `strconv.ParseInt(s, 10, 64)`. A number that `ParseUint` finds out of range is out of range here.
unfoldable pub parse_int64 : Bytes → Result ℤ
unfolding signed
parse_int64 [] = err (new "invalid syntax")
parse_int64 (c ∷ s) =
    if c == b'+'
    then parse_uint 64 s >>= signed false
    else if c == b'-'
    then parse_uint 64 s >>= signed true
    else parse_uint 64 (c ∷ s) >>= signed false

-- `strconv.Itoa`.
unfoldable pub itoa : ℤ → Bytes
itoa (pos n) = format_uint n
itoa (negsuc n) = b'-' ∷ format_uint (suc n)

-- `int(n)` of an unsigned number of at most 64 bits.
unfoldable pub to_int : ℕ → ℤ
to_int n = if ltb n i64_half then pos n else negsuc (u64_mod - n - 1)

itoa_wraps : itoa (to_int (u64_mod - 1)) ≡ codes "-1"
unfolding itoa to_int format_uint
itoa_wraps = refl

parse_int64_least : parse_int64 (codes "-9223372036854775808") ≡ ok (negsuc (i64_half - 1))
unfolding parse_int64 parse_uint
parse_int64_least = refl

signed-IsInt64 : (neg : Bool) (n : ℕ) (z : ℤ) → signed neg n ≡ ok z → IsInt64 z
unfolding signed
signed-IsInt64 true n (pos m) h = ground arith
signed-IsInt64 true n (negsuc m) h = ground arith
signed-IsInt64 false n (pos m) h = ground arith
signed-IsInt64 false n (negsuc m) h = ground arith

bind_signed-IsInt64 : (m : Result ℕ) (neg : Bool) (z : ℤ) → (m >>= signed neg) ≡ ok z → IsInt64 z
bind_signed-IsInt64 (ok n) neg z h = signed-IsInt64 neg n z h
bind_signed-IsInt64 (err e) neg z h = cc
bind_signed-IsInt64 panic neg z h = cc

-- `ParseInt` returns values of an `int64` only.
pub parse_int64-IsInt64 : (s : Bytes) (z : ℤ) → parse_int64 s ≡ ok z → IsInt64 z
unfolding parse_int64
parse_int64-IsInt64 [] z h = cc
parse_int64-IsInt64 (c ∷ s) z h = elim (Bool-cases (c == b'+')) [
  | inl e ↦ bind_signed-IsInt64 (parse_uint 64 s) false z (rw e at h)
  | inr e ↦ elim (Bool-cases (c == b'-')) [
    | inl e' ↦ bind_signed-IsInt64 (parse_uint 64 s) true z (rw (e, e') at h)
    | inr e' ↦ bind_signed-IsInt64 (parse_uint 64 (c ∷ s)) false z (rw (e, e') at h)
  ]
]
