-- ===== src/Wgapi/Key.antt =====
-- pkg/wg/wgapi/internal/key/keys.go: the names on the left of a key=value line.
use point_c.Base.{◌≤◌, arith, Bytes, codes, Lacks, length}

-- The empty struct types of the file, whose one method is `String`.
pub data KeyName : Type 0 where
  private_key : KeyName
  public_key : KeyName
  preshared_key : KeyName
  persistent_keepalive : KeyName
  replace_peers : KeyName
  remove : KeyName
  update_only : KeyName
  fwmark : KeyName
  protocol_version : KeyName
  replace_allowed_ips : KeyName
  listen_port : KeyName
  errno : KeyName
  last_handshake_time_sec : KeyName
  last_handshake_time_nsec : KeyName
  rx_bytes : KeyName
  tx_bytes : KeyName
  endpoint : KeyName
  allowed_ip : KeyName
  get : KeyName
  set : KeyName

-- The method `String` of each.
unfoldable pub key_string : KeyName → Bytes
key_string private_key = codes "private_key"
key_string public_key = codes "public_key"
key_string preshared_key = codes "preshared_key"
key_string persistent_keepalive = codes "persistent_keepalive_interval"
key_string replace_peers = codes "replace_peers"
key_string remove = codes "remove"
key_string update_only = codes "update_only"
key_string fwmark = codes "fwmark"
key_string protocol_version = codes "protocol_version"
key_string replace_allowed_ips = codes "replace_allowed_ips"
key_string listen_port = codes "listen_port"
key_string errno = codes "errno"
key_string last_handshake_time_sec = codes "last_handshake_time_sec"
key_string last_handshake_time_nsec = codes "last_handshake_time_nsec"
key_string rx_bytes = codes "rx_bytes"
key_string tx_bytes = codes "tx_bytes"
key_string endpoint = codes "endpoint"
key_string allowed_ip = codes "allowed_ip"
key_string get = codes "get"
key_string set = codes "set"

pub key_string-Lacks : (k : KeyName) → Lacks b'\n' (key_string k) × Lacks b'=' (key_string k)
unfolding key_string
key_string-Lacks private_key = omega arith
key_string-Lacks public_key = omega arith
key_string-Lacks preshared_key = omega arith
key_string-Lacks persistent_keepalive = omega arith
key_string-Lacks replace_peers = omega arith
key_string-Lacks remove = omega arith
key_string-Lacks update_only = omega arith
key_string-Lacks fwmark = omega arith
key_string-Lacks protocol_version = omega arith
key_string-Lacks replace_allowed_ips = omega arith
key_string-Lacks listen_port = omega arith
key_string-Lacks errno = omega arith
key_string-Lacks last_handshake_time_sec = omega arith
key_string-Lacks last_handshake_time_nsec = omega arith
key_string-Lacks rx_bytes = omega arith
key_string-Lacks tx_bytes = omega arith
key_string-Lacks endpoint = omega arith
key_string-Lacks allowed_ip = omega arith
key_string-Lacks get = omega arith
key_string-Lacks set = omega arith

pub length-key_string : (k : KeyName) → length (key_string k) ≤ 29
unfolding key_string
length-key_string private_key = omega arith
length-key_string public_key = omega arith
length-key_string preshared_key = omega arith
length-key_string persistent_keepalive = omega arith
length-key_string replace_peers = omega arith
length-key_string remove = omega arith
length-key_string update_only = omega arith
length-key_string fwmark = omega arith
length-key_string protocol_version = omega arith
length-key_string replace_allowed_ips = omega arith
length-key_string listen_port = omega arith
length-key_string errno = omega arith
length-key_string last_handshake_time_sec = omega arith
length-key_string last_handshake_time_nsec = omega arith
length-key_string rx_bytes = omega arith
length-key_string tx_bytes = omega arith
length-key_string endpoint = omega arith
length-key_string allowed_ip = omega arith
length-key_string get = omega arith
length-key_string set = omega arith
