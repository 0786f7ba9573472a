-- ===== src/Strconv/RoundTrip.antt =====
-- What `FormatUint` and `Itoa` print is read back by `ParseUint` and `ParseInt`.
use mathlib.Core.List.{cons-ne-nil}
use point_c.Base.{
  ℕ, zero, suc, ◌+◌, ◌/◌, ◌%◌, ◌^◌, ◌≤◌, ◌<◌, ◌≡◌, ◌≢◌, refl, ap, ◌∙◌, true, false, Bool-cases, inl,
  inr, ◌⊎◌, [], ◌∷◌, arith, ◌==◌, Bytes, ok, ◌>>=◌, All, length,
}
use native.Mathlib.Nat.{pow-suc}
use point_c.Strconv.{u64_mod, max_val, scan, parse_uint, max_digits, write_digits, format_uint}
use point_c.Strconv.Digits.{IsDigit}
use point_c.Strconv.Int.{ℤ, pos, negsuc, IsInt64, i64_half, signed, parse_int64, itoa, to_int}

scan_last :
    (top n : ℕ) (rest : Bytes)
    → top < u64_mod
    → n ≤ top
    → scan top ((n % 10 + b'0') ∷ rest) (n / 10) ≡ scan top rest n
unfolding scan
scan_last top n rest t h = ground arith

scan-write_digits :
    (top room n : ℕ) (rest : Bytes)
    → top < u64_mod
    → n < 10 ^ room
    → n ≤ top
    → scan top (write_digits room n rest) 0 ≡ scan top rest n
unfolding write_digits
scan-write_digits top zero n rest t l h = ap (scan top rest) (omega arith)
scan-write_digits top (suc room) n rest t l h = elim (Bool-cases (n == 0)) [
  | inl e ↦ ground arith
  | inr e ↦
      let smaller : n / 10 < 10 ^ room = omega (arith, pow-suc 10 room) in
      rw e (
        scan-write_digits top room (n / 10) ((n % 10 + b'0') ∷ rest) t smaller (omega arith)
        ∙ scan_last top n rest t h)
]

write_digits-ne-nil : (room n : ℕ) (rest : Bytes) → rest ≢ [] → write_digits room n rest ≢ []
unfolding write_digits
write_digits-ne-nil zero n rest h = h
write_digits-ne-nil (suc room) n rest h = elim (Bool-cases (n == 0)) [
  | inl e ↦ rw e h
  | inr e ↦ rw e (write_digits-ne-nil room (n / 10) ((n % 10 + b'0') ∷ rest) (cons-ne-nil _ rest))
]

pub format_uint-ne-nil : (n : ℕ) → format_uint n ≢ []
unfolding format_uint write_digits
format_uint-ne-nil n = elim (Bool-cases (n == 0)) [
  | inl e ↦ rw e (cons-ne-nil b'0' [])
  | inr e ↦ rw e (write_digits-ne-nil 19 (n / 10) _ (cons-ne-nil (n % 10 + b'0') []))
]

write_digits-IsDigit :
    (room n : ℕ) (rest : Bytes) → All IsDigit rest → All IsDigit (write_digits room n rest)
unfolding write_digits
write_digits-IsDigit zero n rest h = h
write_digits-IsDigit (suc room) n rest h = elim (Bool-cases (n == 0)) [
  | inl e ↦ rw e h
  | inr e ↦ rw e (write_digits-IsDigit room (n / 10) _ ((omega arith, omega arith), h))
]

format_uint_cases :
    (n : ℕ)
    → ((n ≡ 0) × (format_uint n ≡ b'0' ∷ [])) ⊎ (format_uint n ≡ write_digits max_digits n [])
unfolding format_uint write_digits
format_uint_cases n = elim (Bool-cases (n == 0)) [
  | inl e ↦ inl (ground arith, rw e refl)
  | inr e ↦ inr (rw e refl)
]

pub format_uint-IsDigit : (n : ℕ) → All IsDigit (format_uint n)
format_uint-IsDigit n = elim (format_uint_cases n) [
  | inl (z, e) ↦ rw e (omega arith)
  | inr e ↦ rw e (write_digits-IsDigit max_digits n [] tt)
]

length-write_digits :
    (room n : ℕ) (rest : Bytes) → length (write_digits room n rest) ≤ room + length rest
unfolding write_digits
length-write_digits zero n rest = omega arith
length-write_digits (suc room) n rest =
    ground (arith, length-write_digits room (n / 10) ((n % 10 + b'0') ∷ rest))

pub length-format_uint : (n : ℕ) → length (format_uint n) ≤ max_digits
length-format_uint n = elim (format_uint_cases n) [
  | inl (z, e) ↦ rw e (omega arith)
  | inr e ↦ rw e (length-write_digits max_digits n [])
]

parse_uint-scan : (bits : ℕ) (s : Bytes) → s ≢ [] → parse_uint bits s ≡ scan (max_val bits) s 0
unfolding parse_uint
parse_uint-scan bits [] h = absurd (h refl)
parse_uint-scan bits (c ∷ s) _ = refl

scan-format_uint : (top n : ℕ) → top < u64_mod → n ≤ top → scan top (format_uint n) 0 ≡ ok n
unfolding format_uint scan
scan-format_uint top n t h = ground (arith, scan-write_digits top max_digits n [] t (omega arith) h)

-- Every unsigned number of the given width is read back from its decimal print.
pub parse_uint-format_uint :
    (bits n : ℕ)
    → max_val bits < u64_mod
    → n ≤ max_val bits
    → parse_uint bits (format_uint n) ≡ ok n
parse_uint-format_uint bits n t h =
    rw (parse_uint-scan bits _ (format_uint-ne-nil n)) (scan-format_uint (max_val bits) n t h)

parse_int64_digits :
    (s : Bytes) → s ≢ [] → All IsDigit s → parse_int64 s ≡ parse_uint 64 s >>= signed false
unfolding parse_int64
parse_int64_digits [] h _ = absurd (h refl)
parse_int64_digits (c ∷ s) h (d, _) = ground arith

signed-true : (n : ℕ) → n < i64_half → signed true (suc n) ≡ ok (negsuc n)
unfolding signed
signed-true n h = ground arith

signed-false : (n : ℕ) → n < i64_half → signed false n ≡ ok (pos n)
unfolding signed
signed-false n h = ground arith

-- `Itoa` of a value of an `int64` is read back by `ParseInt`.
pub parse_int64-itoa : (z : ℤ) → IsInt64 z → parse_int64 (itoa z) ≡ ok z
unfolding itoa
parse_int64-itoa (pos n) h =
    rw
      (
        parse_int64_digits (format_uint n) (format_uint-ne-nil n) (format_uint-IsDigit n),
        parse_uint-format_uint 64 n (omega arith) (omega arith),
      )
      (signed-false n h)
parse_int64-itoa (negsuc n) h =
    unfold parse_int64 in
    rw (parse_uint-format_uint 64 (suc n) (omega arith) (omega arith)) (signed-true n h)

pub to_int_lem : (n : ℕ) → n < i64_half → to_int n ≡ pos n
unfolding to_int
to_int_lem n h = ground arith
