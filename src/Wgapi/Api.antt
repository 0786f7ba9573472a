-- ===== src/Wgapi/Api.antt =====
-- pkg/wg/wgapi/api.go and keys.go: the named value types, the default values and subnets, and the
-- generation of keys.
use point_c.Base.{ℕ, [], ◌∷◌, Bytes, Result, ok, err, panic}
use point_c.Wgapi.Key.{
  private_key, public_key, preshared_key, persistent_keepalive, listen_port, replace_peers,
  endpoint, allowed_ip,
}
use point_c.Wgapi.Addr.{IpNet, UdpAddr, repeat, to16}
use point_c.Wgapi.Value.{
  IpcKeyValue, uint16, true_value, udp_addr, ip_net, key_value, private, public, pre_shared,
  public_key_of,
}

-- The conversions to `PrivateKey`, `PublicKey` and `PresharedKey`.
abbrev pub private_value : Bytes → IpcKeyValue
private_value b = key_value private_key private b

abbrev pub public_value : Bytes → IpcKeyValue
public_value b = key_value public_key public b

abbrev pub preshared_value : Bytes → IpcKeyValue
preshared_value b = key_value preshared_key pre_shared b

-- The conversions to `PersistentKeepalive`, `ListenPort`, `Endpoint`, `AllowedIP`, and
-- `ReplacePeers{}`.
abbrev pub keepalive_value : ℕ → IpcKeyValue
keepalive_value n = uint16 persistent_keepalive n

abbrev pub listen_port_value : ℕ → IpcKeyValue
listen_port_value n = uint16 listen_port n

abbrev pub endpoint_value : UdpAddr → IpcKeyValue
endpoint_value a = udp_addr endpoint a

abbrev pub allowed_ip_value : IpNet → IpcKeyValue
allowed_ip_value n = ip_net allowed_ip n

abbrev pub replace_peers_value : IpcKeyValue
replace_peers_value = true_value replace_peers

-- `DefaultPersistentKeepalive`.
abbrev pub default_persistent_keepalive : ℕ
default_persistent_keepalive = 25

-- `DefaultListenPort`.
abbrev pub default_listen_port : ℕ
default_listen_port = 51820

-- `EmptySubnet`: what `net.ParseCIDR("0.0.0.0/0")` returns as its network.
abbrev pub empty_subnet : IpNet
empty_subnet = record { ip = 0 ∷ 0 ∷ 0 ∷ 0 ∷ []; mask = 0 ∷ 0 ∷ 0 ∷ 0 ∷ [] }

-- `IdentitySubnet`.
unfoldable pub identity_subnet : Bytes → IpNet
identity_subnet ip = record { ip = to16 ip; mask = repeat 16 255 }

-- `NewPrivatePublic`, with the result of `wgtypes.GeneratePrivateKey` and the curve function given.
unfoldable pub new_private_public : (Bytes → Bytes) → Result Bytes → Result (Bytes × Bytes)
unfolding public_key_of
new_private_public curve (err e) = err e
new_private_public curve panic = panic
new_private_public curve (ok k) = elim (public_key_of curve private k) [
  | ok p ↦ ok (k, p)
  | err e ↦ err e
  | panic ↦ panic
]
