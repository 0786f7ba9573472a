-- ===== src/Strconv.antt =====
-- The decimal functions of Go's strconv that the program calls: `ParseUint` and `ParseInt` in base
-- 10 and `Itoa`, with Go's 64-bit arithmetic written out.
pub mod Int
pub mod RoundTrip
pub mod Digits
use point_c.Base.{
  ℕ, zero, suc, ◌+◌, ◌-◌, ◌*◌, ◌/◌, ◌%◌, ◌^◌, ◌≤◌, ◌<◌, ◌≡◌, refl, Bool, true, false, ◌&&◌, ◌||◌,
  Option, none, some, List, [], ◌∷◌, ◌++◌, arith, ltb, leb, ◌==◌, if◌then◌else◌, Bytes, codes,
  Result, ok, err, new, dec_lt, String,
}

abbrev pub u64_mod : ℕ
u64_mod = 2 ^ 64

-- `1<<bitSize - 1`.
abbrev pub max_val : ℕ → ℕ
max_val bits = 2 ^ bits - 1

-- `maxUint64/10 + 1`: from here on `n*10` overflows.
abbrev pub cutoff : ℕ
cutoff = (u64_mod - 1) / 10 + 1

abbrev pub is_digit : ℕ → Bool
is_digit c = leb b'0' c && leb c b'9'

-- The loop of `ParseUint` over the bytes that are left, at the number read so far.
pub scan : ℕ → Bytes → ℕ → Result ℕ
scan top [] n = ok n
scan top (c ∷ s) n =
    let n1 = (n * 10 + (c - b'0')) % u64_mod in
    let rest = scan top s n1 in
    if is_digit c
    then (if leb cutoff n
        then err (new "value out of range")
        else if ltb n1 (n * 10) || ltb top n1
        then err (new "value out of range")
        else rest)
    else err (new "invalid syntax")

-- `strconv.ParseUint(s, 10, bits)`.
unfoldable pub parse_uint : ℕ → Bytes → Result ℕ
unfolding scan
parse_uint bits [] = err (new "invalid syntax")
parse_uint bits (c ∷ s) = scan (max_val bits) (c ∷ s) 0

-- The size of the largest decimal text; Go's buffer holds it.
abbrev pub max_digits : ℕ
max_digits = 20

-- The loop of `FormatUint` with so much room left in the buffer: the digits of a positive number,
-- in front of those written already.
pub write_digits : ℕ → ℕ → Bytes → Bytes
write_digits zero n written = written
write_digits (suc room) n written =
    let whole = write_digits room (n / 10) ((n % 10 + b'0') ∷ written) in
    if n == 0 then written else whole

-- `strconv.FormatUint(n, 10)`.
unfoldable pub format_uint : ℕ → Bytes
unfolding write_digits
format_uint n = if n == 0 then b'0' ∷ [] else write_digits max_digits n []

format_uint_max : format_uint (max_val 64) ≡ codes "18446744073709551615"
unfolding format_uint
format_uint_max = refl

parse_uint_over : parse_uint 64 (codes "18446744073709551616") ≡ err (new "value out of range")
unfolding parse_uint
parse_uint_over = refl

parse_uint_port : parse_uint 16 (codes "0051820") ≡ ok 51820
unfolding parse_uint
parse_uint_port = refl
