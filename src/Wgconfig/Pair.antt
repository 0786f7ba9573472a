-- ===== src/Wgconfig/Pair.antt =====
-- The two configurations that `GenerateConfigPair` makes belong together.
use mathlib.Core.Path.{subst}
use point_c.Base.{
  ◌%◌, ◌^◌, ◌≡◌, refl, some, [], ◌∷◌, Bytes, Result, ok, err, panic, ok-injective, arith,
}
use point_c.Wgapi.Addr.{UdpAddr}
use point_c.Wgapi.Api.{
  empty_subnet, identity_subnet, new_private_public, default_persistent_keepalive,
}
use point_c.Wgconfig.{Client, Server, generate_config_pair}

-- The client knows the server's public key and endpoint, the server the client's public key and
-- address; both have the same preshared key, and the server listens on the endpoint's port.
abbrev pub Matches : (Bytes → Bytes) → UdpAddr → Bytes → Client × Server → Type 0
Matches curve addr client_ip (c, s) =
    (c.public_key ≡ curve s.private_key)
    × (c.endpoint ≡ addr)
    × (s.listen_port ≡ addr.port % 2 ^ 16)
    × (s.peers
        ≡ record {
          public_key = curve c.private_key;
          pre_shared = c.pre_shared;
          allowed_ips = identity_subnet client_ip ∷ [];
        }
          ∷ [])
    × (c.allowed_ips ≡ empty_subnet ∷ [])
    × (c.persistent_keepalive ≡ some default_persistent_keepalive)

-- A pair that is generated without an error matches.
pub generate_config_pair-Matches :
    (curve : Bytes → Bytes) (made_client made_server made_shared : Result Bytes) (addr : UdpAddr)
    (client_ip : Bytes) (pair : Client × Server)
    → generate_config_pair curve made_client made_server made_shared addr client_ip ≡ ok pair
    → Matches curve addr client_ip pair
unfolding generate_config_pair new_private_public
generate_config_pair-Matches curve (ok a) (ok b) (ok k) addr ip pair h =
    subst (Matches curve addr ip) (ok-injective h) (refl, refl, refl, refl, refl, refl)
generate_config_pair-Matches curve (ok a) (ok b) (err e) addr ip pair h = ground arith
generate_config_pair-Matches curve (ok a) (ok b) panic addr ip pair h = ground arith
generate_config_pair-Matches curve (ok a) (err e) k addr ip pair h = ground arith
generate_config_pair-Matches curve (ok a) panic k addr ip pair h = ground arith
generate_config_pair-Matches curve (err e) b k addr ip pair h = ground arith
generate_config_pair-Matches curve panic b k addr ip pair h = ground arith
