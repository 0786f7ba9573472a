-- ===== src/Wgapi/Value.antt =====
-- pkg/wg/wgapi/internal/value/values.go, value/wgkey/key.go, internal/ipc.go: the values of a
-- configuration line and their text.
use point_c.Base.{ℕ, [], Bytes, codes, Result, ok, err, errorf}
use point_c.Strconv.Int.{ℤ, to_int, itoa}
use point_c.Hex.{encode_to_string}
use point_c.Wgapi.Key.{KeyName, key_string}
use point_c.Wgapi.Addr.{IpNet, UdpAddr, AddrText}

-- The phantom type of a wgkey.Key.
pub data KeyType : Type 0 where
  private public pre_shared : KeyType

-- The types of values.go that implement `IPCKeyValue`, with their type parameter `K` as a value.
pub data IpcKeyValue : Type 0 where
  uint16 : KeyName → ℕ → IpcKeyValue
  uint32 : KeyName → ℕ → IpcKeyValue
  uint64 : KeyName → ℕ → IpcKeyValue
  int64 : KeyName → ℤ → IpcKeyValue
  true_value : KeyName → IpcKeyValue
  one_value : KeyName → IpcKeyValue
  udp_addr : KeyName → UdpAddr → IpcKeyValue
  ip_net : KeyName → IpNet → IpcKeyValue
  key_value : KeyName → KeyType → Bytes → IpcKeyValue

-- The parameter `K` of the value's type.
abbrev pub key_name : IpcKeyValue → KeyName
key_name (uint16 k n) = k
key_name (uint32 k n) = k
key_name (uint64 k n) = k
key_name (int64 k z) = k
key_name (true_value k) = k
key_name (one_value k) = k
key_name (udp_addr k a) = k
key_name (ip_net k n) = k
key_name (key_value k t b) = k

-- The method `Key` of every value, through `getKey`.
unfoldable pub kv_key : IpcKeyValue → Bytes
kv_key kv = key_string (key_name kv)

-- `numString` of an unsigned number: `strconv.Itoa(int(n))`.
unfoldable pub num_string : ℕ → Bytes
num_string n = itoa (to_int n)

-- `boolString(true)`.
abbrev pub bool_string_true : Bytes
bool_string_true = codes "true"

module _ (net : AddrText) where
  -- The method `String` of every value.
  unfoldable pub kv_string : IpcKeyValue → Bytes
  unfolding num_string
  kv_string (uint16 k n) = num_string n
  kv_string (uint32 k n) = num_string n
  kv_string (uint64 k n) = num_string n
  kv_string (int64 k z) = itoa z
  kv_string (true_value k) = bool_string_true
  kv_string (one_value k) = num_string 1
  kv_string (udp_addr k a) = net.print_udp_addr a
  kv_string (ip_net k n) = net.print_net n
  kv_string (key_value k t b) = encode_to_string b

-- `Key.Public`, with the curve function of package wgtypes given: the type of the result's key is
-- Public, and a preshared key is refused.
unfoldable pub public_key_of : (Bytes → Bytes) → KeyType → Bytes → Result Bytes
public_key_of curve public b = ok b
public_key_of curve private b = ok (curve b)
public_key_of curve pre_shared b = err (errorf "invalid key type %T" [])
