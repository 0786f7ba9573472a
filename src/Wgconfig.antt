-- ===== src/Wgconfig.antt =====
-- pkg/wg/wgapi/wgconfig: the client's and the server's configuration, and the pair of both.
pub mod Written
pub mod Pair
use point_c.Base.{
  ℕ, ◌%◌, ◌^◌, Option, none, some, List, [], ◌∷◌, ◌++◌, Bytes, Result, ok, err, panic, map,
}
use point_c.Wgapi.Addr.{IpNet, UdpAddr, AddrText}
use point_c.Wgapi.Value.{IpcKeyValue}
use point_c.Wgapi.Api.{
  private_value, public_value, preshared_value, keepalive_value, listen_port_value, endpoint_value,
  allowed_ip_value, replace_peers_value, default_persistent_keepalive, default_listen_port,
  empty_subnet, identity_subnet, new_private_public,
}
use point_c.Wgapi.Ipc.{Ipc, wg_config}

-- `Client`.
pub record Client : Type 0 where
  pub private_key : Bytes
  pub public_key : Bytes
  pub pre_shared : Bytes
  pub endpoint : UdpAddr
  pub persistent_keepalive : Option ℕ
  pub allowed_ips : List IpNet

-- `Peer`.
pub record Peer : Type 0 where
  pub public_key : Bytes
  pub pre_shared : Bytes
  pub allowed_ips : List IpNet

-- `Server`.
pub record Server : Type 0 where
  pub private_key : Bytes
  pub listen_port : ℕ
  pub peers : List Peer

module _ (net : AddrText) where
  -- The loop of `Client.WGConfig` over the allowed networks; an `io.MultiReader` is the text that
  -- it yields.
  with_allowed : List IpNet → Bytes → Bytes
  with_allowed [] conf = conf
  with_allowed (n ∷ ns) conf = with_allowed ns (conf ++ wg_config net (allowed_ip_value n ∷ []))

  with_keepalive : Option ℕ → Bytes → Bytes
  with_keepalive none conf = conf
  with_keepalive (some n) conf = conf ++ wg_config net (keepalive_value n ∷ [])

  -- `Client.WGConfig`.
  unfoldable pub client_config : Client → Bytes
  unfolding with_allowed with_keepalive
  client_config cfg = with_allowed cfg.allowed_ips (
      with_keepalive cfg.persistent_keepalive (
        wg_config net (
          private_value cfg.private_key
          ∷ replace_peers_value
          ∷ public_value cfg.public_key
          ∷ endpoint_value cfg.endpoint
          ∷ preshared_value cfg.pre_shared
          ∷ [])))

  -- `Peer.WGConfig`.
  unfoldable pub peer_config : Peer → Bytes
  peer_config cfg = wg_config net (
      public_value cfg.public_key
      ∷ preshared_value cfg.pre_shared
      ∷ map allowed_ip_value cfg.allowed_ips)

  -- The loop of `Server.WGConfig` over the peers.
  with_peers : List Peer → Bytes → Bytes
  unfolding peer_config
  with_peers [] conf = conf
  with_peers (p ∷ ps) conf = with_peers ps (conf ++ peer_config p)

  -- `Server.WGConfig`.
  unfoldable pub server_config : Server → Bytes
  unfolding with_peers
  server_config cfg =
      with_peers cfg.peers
        (wg_config net (private_value cfg.private_key ∷ listen_port_value cfg.listen_port ∷ []))

-- `AllowAllIPs`.
abbrev pub allow_all_ips : Client → Client
allow_all_ips cfg = record cfg { allowed_ips = empty_subnet ∷ [] }

-- `DefaultPersistentKeepAlive`.
abbrev pub default_keep_alive : Client → Client
default_keep_alive cfg = record cfg { persistent_keepalive = some default_persistent_keepalive }

-- `DefaultListenPort`.
abbrev pub with_default_listen_port : Server → Server
with_default_listen_port cfg = record cfg { listen_port = default_listen_port }

-- `AddPeer`.
abbrev pub add_peer : Server → Bytes → Bytes → Bytes → Server
add_peer cfg public shared ip = record cfg {
  peers =
      cfg.peers
      ++ record { public_key = public; pre_shared = shared; allowed_ips = identity_subnet ip ∷ [] }
        ∷ [];
}

-- The end of `GenerateConfigPair`, when the three keys have been made.
abbrev pub pair_of : Bytes × Bytes → Bytes × Bytes → Bytes → UdpAddr → Bytes → Client × Server
pair_of (client_private, client_public) (server_private, server_public) shared addr client_ip = (
  default_keep_alive (
      allow_all_ips (record {
        private_key = client_private;
        public_key = server_public;
        pre_shared = shared;
        endpoint = addr;
        persistent_keepalive = none;
        allowed_ips = [];
      })),
  add_peer (record { private_key = server_private; listen_port = addr.port % 2 ^ 16; peers = [] })
      client_public shared client_ip,
)

-- `GenerateConfigPair`, with the results of the three calls that make keys given, in their order.
unfoldable pub generate_config_pair :
    (Bytes → Bytes)
    → Result Bytes
    → Result Bytes
    → Result Bytes
    → UdpAddr
    → Bytes
    → Result (Client × Server)
unfolding new_private_public
generate_config_pair curve made_client made_server made_shared addr client_ip =
    elim (new_private_public curve made_client) [
      | err e ↦ err e
      | panic ↦ panic
      | ok client ↦ elim (new_private_public curve made_server) [
        | err e ↦ err e
        | panic ↦ panic
        | ok server ↦ elim made_shared [
          | err e ↦ err e
          | panic ↦ panic
          | ok shared ↦ ok (pair_of client server shared addr client_ip)
        ]
      ]
    ]
