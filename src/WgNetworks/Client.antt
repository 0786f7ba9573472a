-- ===== src/WgNetworks/Client.antt =====
-- module/networks/wg/client.go: the network of a client of a WireGuard server.
use point_c.Base.{ℕ, Option, none, List, [], ◌∷◌, Bytes, GoError, ◌⊎◌}
use point_c.Configvalues.Unmarshaler.{CaddyTextUnmarshaler}
use point_c.Wgapi.Addr.{AddrText, UdpAddr}
use point_c.Wgconfig.{Client, client_config, default_keep_alive, allow_all_ips}
use point_c.Wg.Connection.{Wireguard, Env, new_wireguard}
use point_c.WgNetworks.{provision_options, assigned}

-- `Client.json`.
pub record ClientJson : Type 0 where
  pub name : CaddyTextUnmarshaler Bytes
  pub endpoint : CaddyTextUnmarshaler UdpAddr
  pub ip : CaddyTextUnmarshaler Bytes
  pub private_key : CaddyTextUnmarshaler Bytes
  pub public_key : CaddyTextUnmarshaler Bytes
  pub preshared : CaddyTextUnmarshaler Bytes

-- `Client`, without the logger; it is its own `clientNet`.
pub record ClientNet : Type 0 where
  pub json : ClientJson
  pub name : Bytes
  pub ip : Bytes
  pub net : Option ℕ
  pub wg : Option Wireguard

-- The configuration that `Provision` makes of the JSON values.
unfoldable pub client_of : ClientJson → Client
client_of json = allow_all_ips (
    default_keep_alive (record {
      private_key = json.private_key.value;
      public_key = json.public_key.value;
      pre_shared = json.preshared.value;
      endpoint = json.endpoint.value;
      persistent_keepalive = none;
      allowed_ips = [];
    }))

-- `Client.Provision`.
unfoldable pub provision : AddrText → Env → ℕ → ℕ ⊎ GoError → ClientNet → ClientNet × Option GoError
unfolding client_of
provision net env logger made c =
    let r =
      new_wireguard env (provision_options (client_config net (client_of c.json)) logger made) in
    (
      record {
        json = c.json;
        name = c.json.name.value;
        ip = c.json.ip.value;
        net = assigned r.pointers;
        wg = r.wireguard;
      },
      r.error,
    )

-- `Client.Networks`.
unfoldable pub networks : ClientNet → List (Bytes × ClientNet)
networks c = (c.name, c) ∷ []
