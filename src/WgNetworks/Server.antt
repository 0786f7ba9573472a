-- ===== src/WgNetworks/Server.antt =====
-- module/networks/wg/server.go: the server's networks, one for itself and one for each peer.

pub mod Named
use point_c.Base.{
  ℕ, ◌≡◌, Option, none, some, List, [], ◌∷◌, ◌++◌, Bytes, GoError, errorf, text, lookup, insert,
  ◌⊎◌,
}
use point_c.Configvalues.Unmarshaler.{CaddyTextUnmarshaler}
use point_c.Wgapi.Addr.{AddrText}
use point_c.Wgconfig
use point_c.Wgconfig.{add_peer, server_config}
use point_c.Wg.Connection.{Wireguard, Env, Outcome, new_wireguard}
use point_c.WgNetworks.{provision_options, assigned}

-- The element of `Server.json.Peers`.
pub record PeerJson : Type 0 where
  pub name : CaddyTextUnmarshaler Bytes
  pub public_key : CaddyTextUnmarshaler Bytes
  pub preshared_key : CaddyTextUnmarshaler Bytes
  pub ip : CaddyTextUnmarshaler Bytes

-- `Server.json`.
pub record ServerJson : Type 0 where
  pub name : CaddyTextUnmarshaler Bytes
  pub ip : CaddyTextUnmarshaler Bytes
  pub listen_port : CaddyTextUnmarshaler ℕ
  pub private_key : CaddyTextUnmarshaler Bytes
  pub peers : List PeerJson

-- `serverNet`, without the pointer to its server.
pub record ServerNet : Type 0 where
  pub ip : Bytes

-- `Server`, without the logger.
pub record Server : Type 0 where
  pub json : ServerJson
  pub net : Option ℕ
  pub wg : Option Wireguard
  pub nets : List (Bytes × ServerNet)

-- The loop of `Provision` over the peers, for the server's name: the configuration, `c.nets`, and
-- the error.
provision_peers :
    Bytes
    → List PeerJson
    → Wgconfig.Server
    → List (Bytes × ServerNet)
    → Wgconfig.Server × List (Bytes × ServerNet) × Option GoError
provision_peers name [] cfg nets = (cfg, nets, none)
provision_peers name (p ∷ ps) cfg nets =
    let cfg' = add_peer cfg p.public_key.value p.preshared_key.value p.ip.value in
    let rest = provision_peers name ps cfg' (insert name (record { ip = p.ip.value }) nets) in
    elim (lookup p.name.value nets) [
      | some _ ↦ (
        cfg',
        nets,
        some (errorf "hostname %q already declared in config" (text p.name.value ∷ [])),
      )
      | none ↦ rest
    ]

-- The peers of a server's configuration, at the two values that `Provision` starts from.
unfoldable pub provisioned_peers :
    ServerJson → Wgconfig.Server × List (Bytes × ServerNet) × Option GoError
unfolding provision_peers
provisioned_peers json =
    provision_peers json.name.value json.peers
      (record {
        private_key = json.private_key.value;
        listen_port = json.listen_port.value;
        peers = [];
      })
      (insert json.name.value (record { ip = json.ip.value }) [])

-- The part of `Provision` behind the loop, at the loop's results.
with_peers :
    AddrText
    → Env
    → ℕ
    → ℕ ⊎ GoError
    → ServerJson
    → Wgconfig.Server × List (Bytes × ServerNet) × Option GoError
    → Server × Option GoError
with_peers net env logger made json (cfg, nets, some x) =
    (record { json = json; net = none; wg = none; nets = nets }, some x)
with_peers net env logger made json (cfg, nets, none) =
    let r = new_wireguard env (provision_options (server_config net cfg) logger made) in
    (record { json = json; net = assigned r.pointers; wg = r.wireguard; nets = nets }, r.error)

-- `Server.Provision`.
unfoldable pub provision : AddrText → Env → ℕ → ℕ ⊎ GoError → Server → Server × Option GoError
unfolding with_peers
provision net env logger made c = with_peers net env logger made c.json (provisioned_peers c.json)

-- `Server.Networks`: a clone of the map.
unfoldable pub networks : Server → List (Bytes × ServerNet)
networks c = c.nets
