-- ===== src/Wgapi/Typing.antt =====
-- The table `parsers` seen as a typing of the keys: which values a line with a given key can carry.
use mathlib.Core.Path.{subst}
use point_c.Base.{
  suc, ok-injective, ℕ, ◌^◌, ◌≤◌, ◌<◌, ◌≡◌, refl, Bytes, Result, ok, length, All, Lacks, arith,
  >>=-eq-ok, [], ◌∷◌, codes,
}
use point_c.Strconv.{parse_uint, format_uint}
use point_c.Strconv.Digits.{IsDigit, parse_uint_sound}
use point_c.Strconv.Int.{ℤ, pos, negsuc, IsInt64, i64_half, parse_int64, parse_int64-IsInt64, itoa}
use point_c.Strconv.RoundTrip.{
  parse_uint-format_uint, parse_int64-itoa, to_int_lem, format_uint-IsDigit, length-format_uint,
}
use point_c.Hex.{
  IsByte, decode-encode_to_string, decode_sound, encode_to_string-Lacks, length-encode_to_string,
}
use point_c.Wgapi.Key.{
  KeyName, private_key, public_key, preshared_key, persistent_keepalive, replace_peers, remove,
  update_only, fwmark, protocol_version, replace_allowed_ips, listen_port, errno,
  last_handshake_time_sec, last_handshake_time_nsec, rx_bytes, tx_bytes, endpoint, allowed_ip, get,
  set,
}
use point_c.Wgapi.Addr.{AddrText, IsUdpAddr, short_net, long_addr}
use point_c.Wgapi.Value.{
  IpcKeyValue, uint16, uint32, uint64, int64, true_value, one_value, udp_addr, ip_net, key_value,
  KeyType, private, public, pre_shared, key_name, kv_string, num_string,
}
use point_c.Wgapi.Parser.{
  parse_constant_sound, parse_key_sound, parser, parse_one, parse_true, parse_uint16, parse_uint32,
  parse_uint64, parse_int64_value, parse_key, parse_ip_net, parse_udp_addr, key_size,
}

-- The value types of a configuration.
pub data IpcType : Type 0 where
  u16 u32 u64 i64 yes_flag one_flag address network : IpcType
  secret : KeyType → IpcType

-- The type of the values under each key.
abbrev pub value_type : KeyName → IpcType
value_type endpoint = address
value_type allowed_ip = network
value_type replace_peers = yes_flag
value_type remove = yes_flag
value_type update_only = yes_flag
value_type replace_allowed_ips = yes_flag
value_type get = one_flag
value_type set = one_flag
value_type protocol_version = one_flag
value_type rx_bytes = u64
value_type tx_bytes = u64
value_type fwmark = u32
value_type listen_port = u16
value_type persistent_keepalive = u16
value_type errno = i64
value_type last_handshake_time_sec = i64
value_type last_handshake_time_nsec = i64
value_type private_key = secret private
value_type public_key = secret public
value_type preshared_key = secret pre_shared

-- What the text of a value says: a network and an address are read in the form that package net
-- prefers, and any other value is read as it is.
abbrev pub read_back : IpcKeyValue → IpcKeyValue
read_back (ip_net k n) = ip_net k (short_net n)
read_back (udp_addr k a) = udp_addr k (long_addr a)
read_back (uint16 k n) = uint16 k n
read_back (uint32 k n) = uint32 k n
read_back (uint64 k n) = uint64 k n
read_back (int64 k z) = int64 k z
read_back (true_value k) = true_value k
read_back (one_value k) = one_value k
read_back (key_value k t b) = key_value k t b

IsDigit-Lacks : (s : Bytes) → All IsDigit s → Lacks b'\n' s
IsDigit-Lacks [] h = tt
IsDigit-Lacks (c ∷ s) ((lo, hi), h) = (omega arith, IsDigit-Lacks s h)

pub format_uint_line :
    (n : ℕ) → n < 2 ^ 64 → Lacks b'\n' (format_uint n) × (length (format_uint n) ≤ 65000)
format_uint_line n h =
    (IsDigit-Lacks _ (format_uint-IsDigit n), omega (arith, length-format_uint n))

module _ (net : AddrText) where
  -- The generic parser for a type.
  abbrev pub parser_of : IpcType → KeyName → Bytes → Result IpcKeyValue
  parser_of u16 = parse_uint16
  parser_of u32 = parse_uint32
  parser_of u64 = parse_uint64
  parser_of i64 = parse_int64_value
  parser_of yes_flag = parse_true
  parser_of one_flag = parse_one
  parser_of address = parse_udp_addr net
  parser_of network = parse_ip_net net
  parser_of (secret t) = λ k. parse_key k t

  pub parser-parser_of : (k : KeyName) → parser net k ≡ parser_of (value_type k) k
  unfolding parser
  parser-parser_of private_key = refl
  parser-parser_of public_key = refl
  parser-parser_of preshared_key = refl
  parser-parser_of persistent_keepalive = refl
  parser-parser_of replace_peers = refl
  parser-parser_of remove = refl
  parser-parser_of update_only = refl
  parser-parser_of fwmark = refl
  parser-parser_of protocol_version = refl
  parser-parser_of replace_allowed_ips = refl
  parser-parser_of listen_port = refl
  parser-parser_of errno = refl
  parser-parser_of last_handshake_time_sec = refl
  parser-parser_of last_handshake_time_nsec = refl
  parser-parser_of rx_bytes = refl
  parser-parser_of tx_bytes = refl
  parser-parser_of endpoint = refl
  parser-parser_of allowed_ip = refl
  parser-parser_of get = refl
  parser-parser_of set = refl

  -- A value of the type and in the range that its key asks for.
  abbrev pub IsParsed : IpcKeyValue → Type 0
  IsParsed (uint16 k n) = (value_type k ≡ u16) × (n < 2 ^ 16)
  IsParsed (uint32 k n) = (value_type k ≡ u32) × (n < 2 ^ 32)
  IsParsed (uint64 k n) = (value_type k ≡ u64) × (n < 2 ^ 64)
  IsParsed (int64 k z) = (value_type k ≡ i64) × IsInt64 z
  IsParsed (true_value k) = value_type k ≡ yes_flag
  IsParsed (one_value k) = value_type k ≡ one_flag
  IsParsed (udp_addr k a) = (value_type k ≡ address) × IsUdpAddr a
  IsParsed (ip_net k n) = (value_type k ≡ network) × net.IsNetwork n
  IsParsed (key_value k t b) = (value_type k ≡ secret t) × (length b ≡ key_size) × All IsByte b

  -- What `String` prints so that the parsers can read it: an unsigned 64-bit number below the range
  -- of `int`, an address without a zone.
  abbrev pub IsPrintable : IpcKeyValue → Type 0
  IsPrintable (uint64 k n) = n < i64_half
  IsPrintable (udp_addr k a) = a.zone ≡ []
  IsPrintable _ = Unit {0}

  num_string_lem : (n : ℕ) → n < i64_half → num_string n ≡ format_uint n
  unfolding num_string itoa
  num_string_lem n h = rw (to_int_lem n h)

  -- The parser that the table has for a value's key reads the value back from its text, if the
  -- value has the key's type and range, a 64-bit counter is below 2^63, and an address has no zone.
  pub parser-kv_string :
      (kv : IpcKeyValue)
      → IsParsed kv
      → IsPrintable kv
      → parser net (key_name kv) (kv_string net kv) ≡ ok (read_back kv)
  unfolding kv_string
  parser-kv_string (uint16 k n) (t, h) p =
      unfold parse_uint16 in
      rw
        (
          parser-parser_of k,
          t,
          num_string_lem n (omega arith),
          parse_uint-format_uint 16 n (omega arith) (omega arith),
        )
        refl
  parser-kv_string (uint32 k n) (t, h) p =
      unfold parse_uint32 in
      rw
        (
          parser-parser_of k,
          t,
          num_string_lem n (omega arith),
          parse_uint-format_uint 32 n (omega arith) (omega arith),
        )
        refl
  parser-kv_string (uint64 k n) (t, h) p =
      unfold parse_uint64 in
      rw
        (
          parser-parser_of k,
          t,
          num_string_lem n (omega arith),
          parse_uint-format_uint 64 n (omega arith) (omega arith),
        )
        refl
  parser-kv_string (int64 k z) (t, h) p =
      unfold parse_int64_value in rw (parser-parser_of k, t, parse_int64-itoa z h) refl
  parser-kv_string (true_value k) t p = unfold parse_true in rw (parser-parser_of k, t) refl
  parser-kv_string (one_value k) t p =
      unfold parse_one in
      rw (parser-parser_of k, t, num_string_lem 1 (omega arith)) (unfold format_uint in refl)
  parser-kv_string (udp_addr k a) (t, h) p =
      unfold parse_udp_addr in rw (parser-parser_of k, t, net.resolve-print_udp_addr a h p) refl
  parser-kv_string (ip_net k n) (t, h) p =
      unfold parse_ip_net in rw (parser-parser_of k, t, net.parse_cidr-print_net n h) refl
  parser-kv_string (key_value k t b) (e, l, h) p =
      unfold parse_key in
      rw (parser-parser_of k, e, decode-encode_to_string b key_size h (omega arith)) (ground arith)

  abbrev IsOf : KeyName → IpcKeyValue → Type 0
  IsOf k kv = IsParsed kv × (key_name kv ≡ k)

  from_ok : (k : KeyName) (v kv : IpcKeyValue) → ok v ≡ ok kv → IsOf k v → IsOf k kv
  from_ok k v kv e h = subst (IsOf k) (ok-injective e) h

  parser_of_sound :
      (t : IpcType) (k : KeyName) (s : Bytes) (kv : IpcKeyValue)
      → value_type k ≡ t
      → parser_of t k s ≡ ok kv
      → IsOf k kv
  parser_of_sound u16 k s kv t h =
      let (n, e, r) =
        >>=-eq-ok (parse_uint 16 s) (λ m. ok (uint16 k m)) {v = kv} (unfold parse_uint16 in h) in
      let bound = parse_uint_sound 16 s n (omega arith) e in
      from_ok k (uint16 k n) kv r ((t, omega arith), refl)
  parser_of_sound u32 k s kv t h =
      let (n, e, r) =
        >>=-eq-ok (parse_uint 32 s) (λ m. ok (uint32 k m)) {v = kv} (unfold parse_uint32 in h) in
      let bound = parse_uint_sound 32 s n (omega arith) e in
      from_ok k (uint32 k n) kv r ((t, omega arith), refl)
  parser_of_sound u64 k s kv t h =
      let (n, e, r) =
        >>=-eq-ok (parse_uint 64 s) (λ m. ok (uint64 k m)) {v = kv} (unfold parse_uint64 in h) in
      let bound = parse_uint_sound 64 s n (omega arith) e in
      from_ok k (uint64 k n) kv r ((t, omega arith), refl)
  parser_of_sound i64 k s kv t h =
      let (z, e, r) =
        >>=-eq-ok (parse_int64 s) (λ m. ok (int64 k m)) {v = kv} (unfold parse_int64_value in h) in
      from_ok k (int64 k z) kv r ((t, parse_int64-IsInt64 s z e), refl)
  parser_of_sound yes_flag k s kv t h =
      let (_, e) =
        parse_constant_sound (codes "true") s (true_value k) kv (unfold parse_true in h) in
      subst (IsOf k) e (t, refl)
  parser_of_sound one_flag k s kv t h =
      let (_, e) = parse_constant_sound (codes "1") s (one_value k) kv (unfold parse_one in h) in
      subst (IsOf k) e (t, refl)
  parser_of_sound address k s kv t h =
      let (a, e, r) =
        >>=-eq-ok (net.resolve_udp_addr s) (λ m. ok (udp_addr k m)) {v = kv}
          (unfold parse_udp_addr in h) in
      from_ok k (udp_addr k a) kv r ((t, net.resolve-IsUdpAddr s a e), refl)
  parser_of_sound network k s kv t h =
      let (n, e, r) =
        >>=-eq-ok (net.parse_cidr s) (λ m. ok (ip_net k m)) {v = kv} (unfold parse_ip_net in h) in
      from_ok k (ip_net k n) kv r ((t, net.parse_cidr-IsNetwork s n e), refl)
  parser_of_sound (secret x) k s kv t h =
      let (d, e, size, same) = parse_key_sound k x s kv h in
      subst (IsOf k) same ((t, size, (decode_sound key_size s d e).0), refl)

  -- What the parser of a key returns is a value of that key, in range.
  pub parser_sound :
      (k : KeyName) (s : Bytes) (kv : IpcKeyValue)
      → parser net k s ≡ ok kv
      → IsParsed kv × (key_name kv ≡ k)
  parser_sound k s kv h = parser_of_sound (value_type k) k s kv refl (rw (parser-parser_of k) at h)

  itoa_line : (z : ℤ) → IsInt64 z → Lacks b'\n' (itoa z) × (length (itoa z) ≤ 65000)
  unfolding itoa
  itoa_line (pos n) h = format_uint_line n (omega arith)
  itoa_line (negsuc n) h =
      let line = format_uint_line (suc n) (omega arith) in
      ((omega arith, line.0), omega (arith, length-format_uint (suc n)))

  -- The text of a printable value stays within a line.
  pub kv_string_line :
      (kv : IpcKeyValue)
      → IsParsed kv
      → IsPrintable kv
      → Lacks b'\n' (kv_string net kv) × (length (kv_string net kv) ≤ 65000)
  unfolding kv_string
  kv_string_line (uint16 k n) (t, h) p =
      rw (num_string_lem n (omega arith)) (format_uint_line n (omega arith))
  kv_string_line (uint32 k n) (t, h) p =
      rw (num_string_lem n (omega arith)) (format_uint_line n (omega arith))
  kv_string_line (uint64 k n) (t, h) p =
      rw (num_string_lem n (omega arith)) (format_uint_line n (omega arith))
  kv_string_line (int64 k z) (t, h) p = itoa_line z h
  kv_string_line (true_value k) t p = omega arith
  kv_string_line (one_value k) t p =
      rw (num_string_lem 1 (omega arith)) (format_uint_line 1 (omega arith))
  kv_string_line (udp_addr k a) (t, h) p =
      (net.print_udp_addr-Lacks a h p, omega (arith, net.length-print_udp_addr a h p))
  kv_string_line (ip_net k n) (t, h) p =
      (net.print_net-Lacks n h, omega (arith, net.length-print_net n h))
  kv_string_line (key_value k t b) (e, l, h) p =
      ((encode_to_string-Lacks b).0, omega (arith, length-encode_to_string b))
