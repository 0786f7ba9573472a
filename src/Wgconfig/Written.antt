-- ===== src/Wgconfig/Written.antt =====
-- The text of a client's and of a server's configuration is that of one list of values, and reads
-- back as this list.
use point_c.Base.{
  ◌⊎◌, ℕ, ◌^◌, ◌<◌, ◌≡◌, ◌∙◌, refl, ap, sym, Option, none, some, List, [], ◌∷◌, ◌++◌, Bytes, map,
  All, All-append, length, append_assoc, append-nil,
}
use point_c.Hex.{IsByte}
use point_c.Wgapi.Addr.{IpNet, AddrText, IsUdpAddr}
use point_c.Wgapi.Typing.{read_back}
use point_c.Wgapi.Parser.{key_size}
use point_c.Wgapi.Api.{
  private_value, public_value, preshared_value, keepalive_value, listen_port_value, endpoint_value,
  allowed_ip_value, replace_peers_value, identity_subnet,
}
use point_c.Wgapi.Ipc.{Ipc, wg_config, value, returned}
use point_c.Wgapi.Ipc.Print.{wg_config-append}
use point_c.Wgapi.Ipc.RoundTrip.{IsWritable, value-wg_config}
use point_c.Wgconfig.{
  Client, Peer, Server, with_allowed, with_keepalive, client_config, peer_config, with_peers,
  server_config, add_peer,
}

-- The values of a client's configuration, in order.
abbrev pub keepalive_ipc : Option ℕ → Ipc
keepalive_ipc none = []
keepalive_ipc (some n) = keepalive_value n ∷ []

abbrev pub client_ipc : Client → Ipc
client_ipc cfg =
    (private_value cfg.private_key
      ∷ replace_peers_value
      ∷ public_value cfg.public_key
      ∷ endpoint_value cfg.endpoint
      ∷ preshared_value cfg.pre_shared
      ∷ [])
    ++ (keepalive_ipc cfg.persistent_keepalive ++ map allowed_ip_value cfg.allowed_ips)

-- The values of a server's configuration, in order.
abbrev pub peer_ipc : Peer → Ipc
peer_ipc p =
    public_value p.public_key ∷ preshared_value p.pre_shared ∷ map allowed_ip_value p.allowed_ips

abbrev pub peers_ipc : List Peer → Ipc
peers_ipc [] = []
peers_ipc (p ∷ ps) = peer_ipc p ++ peers_ipc ps

abbrev pub server_ipc : Server → Ipc
server_ipc cfg =
    private_value cfg.private_key ∷ listen_port_value cfg.listen_port ∷ peers_ipc cfg.peers

-- A key of the right size.
abbrev pub IsKey : Bytes → Type 0
IsKey b = (length b ≡ key_size) × All IsByte b

abbrev pub IsPort : Option ℕ → Type 0
IsPort none = Unit {0}
IsPort (some n) = n < 2 ^ 16

module _ (net : AddrText) where
  abbrev pub IsClient : Client → Type 0
  IsClient cfg =
      IsKey cfg.private_key
      × IsKey cfg.public_key
      × IsKey cfg.pre_shared
      × IsUdpAddr cfg.endpoint
      × (cfg.endpoint.zone ≡ [])
      × IsPort cfg.persistent_keepalive
      × All net.IsNetwork cfg.allowed_ips

  abbrev pub IsPeer : Peer → Type 0
  IsPeer p = IsKey p.public_key × IsKey p.pre_shared × All net.IsNetwork p.allowed_ips

  abbrev pub IsServer : Server → Type 0
  IsServer cfg = IsKey cfg.private_key × (cfg.listen_port < 2 ^ 16) × All IsPeer cfg.peers

  with_allowed_lem :
      (ns : List IpNet) (a : Ipc)
      → with_allowed net ns (wg_config net a) ≡ wg_config net (a ++ map allowed_ip_value ns)
  unfolding with_allowed
  with_allowed_lem [] a = rw append-nil
  with_allowed_lem (n ∷ ns) a =
      ap (with_allowed net ns) (sym (wg_config-append net a (allowed_ip_value n ∷ [])))
      ∙ with_allowed_lem ns (a ++ allowed_ip_value n ∷ [])
      ∙ rw append_assoc

  with_keepalive_lem :
      (k : Option ℕ) (a : Ipc)
      → with_keepalive net k (wg_config net a) ≡ wg_config net (a ++ keepalive_ipc k)
  unfolding with_keepalive
  with_keepalive_lem none a = rw append-nil
  with_keepalive_lem (some n) a = sym (wg_config-append net a (keepalive_value n ∷ []))

  client_config-client_ipc : (cfg : Client) → client_config net cfg ≡ wg_config net (client_ipc cfg)
  unfolding client_config
  client_config-client_ipc cfg =
      ap (with_allowed net cfg.allowed_ips) (with_keepalive_lem cfg.persistent_keepalive _)
      ∙ with_allowed_lem cfg.allowed_ips _
      ∙ rw append_assoc

  with_peers_lem :
      (ps : List Peer) (a : Ipc)
      → with_peers net ps (wg_config net a) ≡ wg_config net (a ++ peers_ipc ps)
  unfolding with_peers peer_config
  with_peers_lem [] a = rw append-nil
  with_peers_lem (p ∷ ps) a =
      ap (with_peers net ps) (sym (wg_config-append net a (peer_ipc p)))
      ∙ with_peers_lem ps (a ++ peer_ipc p)
      ∙ rw append_assoc

  server_config-server_ipc : (cfg : Server) → server_config net cfg ≡ wg_config net (server_ipc cfg)
  unfolding server_config
  server_config-server_ipc cfg =
      with_peers_lem cfg.peers
        (private_value cfg.private_key ∷ listen_port_value cfg.listen_port ∷ [])

  allowed-IsWritable :
      (ns : List IpNet) → All net.IsNetwork ns → All (IsWritable net) (map allowed_ip_value ns)
  allowed-IsWritable [] h = tt
  allowed-IsWritable (n ∷ ns) (p, hs) = (((refl, p), tt), allowed-IsWritable ns hs)

  keepalive-IsWritable : (k : Option ℕ) → IsPort k → All (IsWritable net) (keepalive_ipc k)
  keepalive-IsWritable none h = tt
  keepalive-IsWritable (some n) h = (((refl, h), tt), tt)

  peers-IsWritable : (ps : List Peer) → All IsPeer ps → All (IsWritable net) (peers_ipc ps)
  peers-IsWritable [] h = tt
  peers-IsWritable (p ∷ ps) ((pk, sk, ns), hs) = (
    ((refl, pk.0, pk.1), tt),
    (
      ((refl, sk.0, sk.1), tt),
      All-append _ (map allowed_ip_value p.allowed_ips) (peers_ipc ps)
          (allowed-IsWritable p.allowed_ips ns) (peers-IsWritable ps hs),
    ),
  )

  -- The text of a client's configuration, its keys 32 bytes each, its keepalive below 2 ^ 16, its
  -- endpoint an address without a zone, with an IP of 4, 16 or no bytes and a 16-bit port, and its
  -- allowed networks prefixes, is read without an error, as the client's values in their order, but
  -- that an IPv4 network is in the form of 4 bytes and an IPv4 address in that of 16 bytes.
  pub value-client_config :
      (cfg : Client)
      → IsClient cfg
      → value net (client_config net cfg) ≡ some (returned (map read_back (client_ipc cfg)) none)
  value-client_config cfg (sk, pk, ps, e, l, k, ns) =
      ap (value net) (client_config-client_ipc cfg)
      ∙ value-wg_config net (client_ipc cfg) (
        ((refl, sk.0, sk.1), tt),
        (
          (refl, tt),
          (
            ((refl, pk.0, pk.1), tt),
            (
              ((refl, e), l),
              (
                ((refl, ps.0, ps.1), tt),
                All-append _ (keepalive_ipc cfg.persistent_keepalive)
                    (map allowed_ip_value cfg.allowed_ips)
                    (keepalive-IsWritable cfg.persistent_keepalive k)
                    (allowed-IsWritable cfg.allowed_ips ns),
              ),
            ),
          ),
        ),
      )

  -- A peer that `AddPeer` makes of two keys and an address of 4 or 16 bytes keeps the server's
  -- configuration readable.
  pub add_peer-IsServer :
      (cfg : Server) (public shared ip : Bytes)
      → IsServer cfg
      → IsKey public
      → IsKey shared
      → (length ip ≡ 4) ⊎ (length ip ≡ 16)
      → All IsByte ip
      → IsServer (add_peer cfg public shared ip)
  unfolding identity_subnet
  add_peer-IsServer cfg public shared ip (sk, l, ps) pk hk size bytes = (
    sk,
    l,
    All-append IsPeer cfg.peers (_ ∷ []) ps
        ((pk, hk, (net.single-IsNetwork ip size bytes, tt)), tt),
  )

  value-server_ipc :
      (cfg : Server)
      → IsServer cfg
      → value net (server_config net cfg) ≡ some (returned (map read_back (server_ipc cfg)) none)
  value-server_ipc cfg (sk, l, ps) =
      ap (value net) (server_config-server_ipc cfg)
      ∙ value-wg_config net (server_ipc cfg)
          (((refl, sk.0, sk.1), tt), (((refl, l), tt), peers-IsWritable cfg.peers ps))

  -- The text of a server's configuration, its keys 32 bytes each, its port below 2 ^ 16 and its
  -- peers' networks prefixes, is read without an error, as the server's key and port and each peer's
  -- keys and networks in their order, but that IPv4 networks are in the form of 4 bytes. It stays so
  -- when `AddPeer` adds a peer of two such keys and an address of 4 or 16 bytes.
  pub value-server_config :
      (cfg : Server) (public shared ip : Bytes)
      → IsServer cfg
      → IsKey public
      → IsKey shared
      → (length ip ≡ 4) ⊎ (length ip ≡ 16)
      → All IsByte ip
      → let cfg' = add_peer cfg public shared ip in
        (value net (server_config net cfg')
          ≡ some (returned (map read_back (server_ipc cfg')) none))
        × (value net (server_config net cfg)
            ≡ some (returned (map read_back (server_ipc cfg)) none))
  value-server_config cfg public shared ip s pk hk size bytes = (
    value-server_ipc (add_peer cfg public shared ip)
        (add_peer-IsServer cfg public shared ip s pk hk size bytes),
    value-server_ipc cfg s,
  )
