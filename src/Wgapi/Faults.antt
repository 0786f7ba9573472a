-- ===== src/Wgapi/Faults.antt =====
-- Values and lines of wgapi on which the printers and parsers do not do what they are meant to.
use point_c.Base.{ℕ, ◌-◌, ◌≤◌, ◌<◌, ◌≡◌, refl, suc, Bytes, err, panic, new, length, All, arith, ◌∷◌}
use point_c.Strconv.{parse_uint, format_uint, u64_mod}
use point_c.Strconv.Int.{i64_half, to_int, itoa}
use point_c.Hex.{IsByte, encode_to_string, decode-panic}
use point_c.Wgapi.Key.{KeyName}
use point_c.Wgapi.Addr.{AddrText}
use point_c.Wgapi.Value.{KeyType, uint64, kv_string, num_string}
use point_c.Wgapi.Parser.{parser, parse_key, parse_uint64, key_size}
use point_c.Wgapi.Typing.{value_type, u64, parser-parser_of}

num_string_over : (n : ℕ) → i64_half ≤ n → num_string n ≡ b'-' ∷ format_uint (suc (u64_mod - n - 1))
unfolding num_string to_int itoa
num_string_over n h = ground arith

module _ (net : AddrText) where
  -- A value of 2^63 or more, under a key of 64-bit counters, is printed with a minus sign, which
  -- its own parser refuses.
  pub parser-kv_string_over :
      (k : KeyName) (n : ℕ)
      → value_type k ≡ u64
      → i64_half ≤ n
      → parser net k (kv_string net (uint64 k n)) ≡ err (new "invalid syntax")
  unfolding kv_string parse_uint64 parse_uint
  parser-kv_string_over k n t h = rw (parser-parser_of net k, t, num_string_over n h) refl

-- `ParseKey` panics on the hexadecimal text of more than 32 bytes, with any key and type, where it
-- means to return an error.
pub parse_key_panic :
    (k : KeyName) (t : KeyType) (bs : Bytes)
    → All IsByte bs
    → key_size < length bs
    → parse_key k t (encode_to_string bs) ≡ panic
unfolding parse_key
parse_key_panic k t bs h r = rw (decode-panic bs key_size h r) refl
