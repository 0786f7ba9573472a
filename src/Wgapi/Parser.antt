-- ===== src/Wgapi/Parser.antt =====
-- pkg/wg/wgapi/internal/parser/parsers.go and the table of pkg/wg/wgapi/parser.go: how the text
-- behind the `=` becomes a value.
use point_c.Base.{
  >>=-eq-ok, ℕ, ◌≡◌, refl, Option, none, some, List, [], ◌∷◌, ◌==◌, if◌then◌else◌, Bytes, codes,
  Result, ok, err, ◌>>=◌, errorf, text, num, length, bytes_eq, bytes_eq_sound, arith,
}
use point_c.Strconv.{parse_uint}
use point_c.Strconv.Int.{parse_int64}
use point_c.Hex.{decode}
use point_c.Wgapi.Key.{
  KeyName, private_key, public_key, preshared_key, persistent_keepalive, replace_peers, remove,
  update_only, fwmark, protocol_version, replace_allowed_ips, listen_port, errno,
  last_handshake_time_sec, last_handshake_time_nsec, rx_bytes, tx_bytes, endpoint, allowed_ip, get,
  set, key_string,
}
use point_c.Wgapi.Addr.{AddrText}
use point_c.Wgapi.Value.{
  IpcKeyValue, uint16, uint32, uint64, int64, true_value, one_value, udp_addr, ip_net, key_value,
  KeyType, private, public, pre_shared,
}

-- `ParseConstant`.
unfoldable pub parse_constant : Bytes → Bytes → IpcKeyValue → Result IpcKeyValue
parse_constant str b v =
    if bytes_eq b str
    then ok v
    else err (errorf "value %q needs to be exactly %q" (text b ∷ text str ∷ []))

-- A constant is accepted in its one spelling only.
pub parse_constant_sound :
    (str b : Bytes) (v kv : IpcKeyValue) → parse_constant str b v ≡ ok kv → (b ≡ str) × (v ≡ kv)
unfolding parse_constant
parse_constant_sound str b v kv h = ground (arith, bytes_eq_sound b str)

-- `ParseOne`, `ParseTrue`.
unfoldable pub parse_one : KeyName → Bytes → Result IpcKeyValue
unfolding parse_constant
parse_one k b = parse_constant (codes "1") b (one_value k)

unfoldable pub parse_true : KeyName → Bytes → Result IpcKeyValue
unfolding parse_constant
parse_true k b = parse_constant (codes "true") b (true_value k)

-- `ParseUint16`, `ParseUint32`, `ParseUint64`, through `ParseUint`.
unfoldable pub parse_uint16 : KeyName → Bytes → Result IpcKeyValue
parse_uint16 k b = do n ← parse_uint 16 b; ok (uint16 k n)

unfoldable pub parse_uint32 : KeyName → Bytes → Result IpcKeyValue
parse_uint32 k b = do n ← parse_uint 32 b; ok (uint32 k n)

unfoldable pub parse_uint64 : KeyName → Bytes → Result IpcKeyValue
parse_uint64 k b = do n ← parse_uint 64 b; ok (uint64 k n)

-- `ParseInt64`, through `ParseInt`.
unfoldable pub parse_int64_value : KeyName → Bytes → Result IpcKeyValue
parse_int64_value k b = do z ← parse_int64 b; ok (int64 k z)

-- `len(k)` of a wgkey.Key.
abbrev pub key_size : ℕ
key_size = 32

-- `ParseKey` behind the call of `hex.Decode`.
sized_key : KeyName → KeyType → Bytes → Result IpcKeyValue
sized_key k t b =
    if length b == key_size
    then ok (key_value k t b)
    else err
        (errorf "wrong key size, got %d bytes expected %d" (num (length b) ∷ num key_size ∷ []))

unfoldable pub parse_key : KeyName → KeyType → Bytes → Result IpcKeyValue
unfolding sized_key
parse_key k t b = do d ← decode key_size b; sized_key k t d

sized_key_sound :
    (k : KeyName) (t : KeyType) (b : Bytes) (kv : IpcKeyValue)
    → sized_key k t b ≡ ok kv
    → (length b ≡ key_size) × (key_value k t b ≡ kv)
unfolding sized_key
sized_key_sound k t b kv h = ground arith

-- An accepted key is a decoded text of the full size.
pub parse_key_sound :
    (k : KeyName) (t : KeyType) (b : Bytes) (kv : IpcKeyValue)
    → parse_key k t b ≡ ok kv
    → (d : Bytes) × (decode key_size b ≡ ok d) × (length d ≡ key_size) × (key_value k t d ≡ kv)
parse_key_sound k t b kv h =
    let (d, e, r) =
      >>=-eq-ok (decode key_size b) (sized_key k t) {v = kv} (unfold parse_key in h) in
    let (size, same) = sized_key_sound k t d kv r in (d, e, size, same)

module _ (net : AddrText) where
  -- `ParseIPNet`, `ParseUDPAddr`.
  unfoldable pub parse_ip_net : KeyName → Bytes → Result IpcKeyValue
  parse_ip_net k b = do n ← net.parse_cidr b; ok (ip_net k n)

  unfoldable pub parse_udp_addr : KeyName → Bytes → Result IpcKeyValue
  parse_udp_addr k b = do a ← net.resolve_udp_addr b; ok (udp_addr k a)

  -- The parser that the table has under a key.
  unfoldable pub parser : KeyName → Bytes → Result IpcKeyValue
  parser endpoint = parse_udp_addr endpoint
  parser allowed_ip = parse_ip_net allowed_ip
  parser replace_peers = parse_true replace_peers
  parser remove = parse_true remove
  parser update_only = parse_true update_only
  parser replace_allowed_ips = parse_true replace_allowed_ips
  parser get = parse_one get
  parser set = parse_one set
  parser protocol_version = parse_one protocol_version
  parser rx_bytes = parse_uint64 rx_bytes
  parser tx_bytes = parse_uint64 tx_bytes
  parser fwmark = parse_uint32 fwmark
  parser listen_port = parse_uint16 listen_port
  parser persistent_keepalive = parse_uint16 persistent_keepalive
  parser errno = parse_int64_value errno
  parser last_handshake_time_sec = parse_int64_value last_handshake_time_sec
  parser last_handshake_time_nsec = parse_int64_value last_handshake_time_nsec
  parser private_key = parse_key private_key private
  parser public_key = parse_key public_key public
  parser preshared_key = parse_key preshared_key pre_shared

-- The keys of the map `parsers`, in the order of the source.
abbrev pub parsers : List KeyName
parsers =
    endpoint ∷ allowed_ip ∷ replace_peers ∷ remove ∷ update_only ∷ replace_allowed_ips ∷ get ∷ set
    ∷ protocol_version ∷ rx_bytes ∷ tx_bytes ∷ fwmark ∷ listen_port ∷ persistent_keepalive ∷ errno
    ∷ last_handshake_time_sec ∷ last_handshake_time_nsec ∷ private_key ∷ public_key ∷ preshared_key
    ∷ []

-- The entry of a map from key texts whose key is the given text.
find_key : Bytes → List KeyName → Option KeyName
find_key s [] = none
find_key s (k ∷ ks) = let rest = find_key s ks in if bytes_eq (key_string k) s then some k else rest

-- `parsers[string(k)]`: the key whose parser the map has under this text.
unfoldable pub lookup_parser : Bytes → Option KeyName
unfolding find_key key_string
lookup_parser s = find_key s parsers

find_key_sound :
    (s : Bytes) (ks : List KeyName) (k : KeyName) → find_key s ks ≡ some k → s ≡ key_string k
unfolding find_key
find_key_sound s [] k h = ground arith
find_key_sound s (j ∷ ks) k h =
    ground (arith, bytes_eq_sound (key_string j) s, find_key_sound s ks k)

-- What the map finds under a text is the key of this text.
pub lookup_parser_sound : (s : Bytes) (k : KeyName) → lookup_parser s ≡ some k → s ≡ key_string k
lookup_parser_sound s k h = find_key_sound s parsers k (unfold lookup_parser in h)

pub lookup_parser-key_string : (k : KeyName) → lookup_parser (key_string k) ≡ some k
unfolding lookup_parser
lookup_parser-key_string private_key = refl
lookup_parser-key_string public_key = refl
lookup_parser-key_string preshared_key = refl
lookup_parser-key_string persistent_keepalive = refl
lookup_parser-key_string replace_peers = refl
lookup_parser-key_string remove = refl
lookup_parser-key_string update_only = refl
lookup_parser-key_string fwmark = refl
lookup_parser-key_string protocol_version = refl
lookup_parser-key_string replace_allowed_ips = refl
lookup_parser-key_string listen_port = refl
lookup_parser-key_string errno = refl
lookup_parser-key_string last_handshake_time_sec = refl
lookup_parser-key_string last_handshake_time_nsec = refl
lookup_parser-key_string rx_bytes = refl
lookup_parser-key_string tx_bytes = refl
lookup_parser-key_string endpoint = refl
lookup_parser-key_string allowed_ip = refl
lookup_parser-key_string get = refl
lookup_parser-key_string set = refl
