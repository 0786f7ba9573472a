-- ===== src/Examples/Configs.antt =====
-- The configurations of pkg/wg/wgapi/wgconfig and of module/networks/wg, at concrete inputs.
use point_c.Base.{
  ◌≡◌, refl, [], ◌∷◌, Bytes, codes, ok, some, none, map, inr, arith, errorf, text, inl, lookup,
  insert, new, join_one,
}
use point_c.Configvalues.Unmarshaler.{CaddyTextUnmarshaler}
use point_c.Wgapi.Addr.{repeat, UdpAddr}
use point_c.Wgapi.Ipc.{value, returned}
use point_c.Wgconfig
use point_c.Wgconfig.{
  Client, Peer, client_config, server_config, add_peer, generate_config_pair, pair_of,
}
use point_c.Wgconfig.Written
use point_c.Wgconfig.Written.{client_ipc, server_ipc}
use point_c.Wgconfig.Pair
use point_c.Wgconfig.Pair.{Matches}
use point_c.Wg.Options.{
  netstack, apply, clean_up, close_netstack, close_bind, close_device, device_down,
}
use point_c.Wg.Connection.{Env, Wireguard, new_wireguard}
use point_c.WgNetworks.{cleanup, nil_pointer}
use point_c.WgNetworks.Server.{PeerJson, Server, provisioned_peers, provision}
use point_c.WgNetworks.Server.Named
use point_c.WgNetworks.Server.Named.{peer_of}
use point_c.WgNetworks.Client as NetClient
use point_c.WgNetworks.Opened
use point_c.Wgapi.Typing.{read_back}
use point_c.Examples.{plain_text}

abbrev an_endpoint : UdpAddr
an_endpoint = record { ip = 10 ∷ 0 ∷ 0 ∷ 1 ∷ []; port = 51820; zone = [] }

abbrev client : Client
client = record {
  private_key = repeat 32 1;
  public_key = repeat 32 2;
  pre_shared = repeat 32 3;
  endpoint = an_endpoint;
  persistent_keepalive = some 25;
  allowed_ips = record { ip = repeat 4 0; mask = repeat 4 0 } ∷ [];
}

abbrev server : Wgconfig.Server
server = record {
  private_key = repeat 32 4;
  listen_port = 51820;
  peers =
      record {
        public_key = repeat 32 5;
        pre_shared = repeat 32 3;
        allowed_ips = record { ip = 10 ∷ 0 ∷ 0 ∷ 2 ∷ []; mask = repeat 4 255 } ∷ [];
      }
      ∷ [];
}

value-client_config_example :
    value plain_text (client_config plain_text client)
    ≡ some (returned (map read_back (client_ipc client)) none)
value-client_config_example = Written.value-client_config plain_text client (
  (refl, omega arith),
  (refl, omega arith),
  (refl, omega arith),
  (inr (inl refl), omega arith, omega arith),
  refl,
  omega arith,
  (((omega arith, omega arith), omega arith, omega arith), tt),
)

-- The server with a second peer, whose IPv4 address has four bytes.
abbrev two_peers : Wgconfig.Server
two_peers = add_peer server (repeat 32 6) (repeat 32 7) (10 ∷ 0 ∷ 0 ∷ 3 ∷ [])

value-server_config_example :
    (value plain_text (server_config plain_text two_peers)
      ≡ some (returned (map read_back (server_ipc two_peers)) none))
    × (value plain_text (server_config plain_text server)
        ≡ some (returned (map read_back (server_ipc server)) none))
value-server_config_example =
    Written.value-server_config plain_text server (repeat 32 6) (repeat 32 7) (10 ∷ 0 ∷ 0 ∷ 3 ∷ [])
      (
        (refl, omega arith),
        omega arith,
        (
          (
            (refl, omega arith),
            (refl, omega arith),
            (((omega arith, omega arith), omega arith, omega arith), tt),
          ),
          tt,
        ),
      )
      (refl, omega arith) (refl, omega arith) (inl refl) (omega arith)

abbrev curve : Bytes → Bytes
curve k = 0 ∷ k

abbrev made_pair : Client × Wgconfig.Server
made_pair = pair_of (1 ∷ [], curve (1 ∷ [])) (2 ∷ [], curve (2 ∷ [])) (3 ∷ []) an_endpoint (4 ∷ [])

pair_run :
    generate_config_pair curve (ok (1 ∷ [])) (ok (2 ∷ [])) (ok (3 ∷ [])) an_endpoint (4 ∷ [])
    ≡ ok made_pair
unfolding generate_config_pair
pair_run = refl

generate_config_pair-Matches_example : Matches curve an_endpoint (4 ∷ []) made_pair
generate_config_pair-Matches_example =
    Pair.generate_config_pair-Matches curve (ok (1 ∷ [])) (ok (2 ∷ [])) (ok (3 ∷ [])) an_endpoint
      (4 ∷ []) made_pair pair_run

abbrev stored : Bytes → CaddyTextUnmarshaler Bytes
stored s = record { value = s; original = s }

abbrev peer : Bytes → PeerJson
peer name = record {
  name = stored name;
  public_key = stored [];
  preshared_key = stored [];
  ip = stored (codes "p");
}

abbrev server_with : Bytes → Server
server_with name = record {
  json = record {
    name = stored (codes "srv");
    ip = stored (codes "s");
    listen_port = record { value = 1; original = codes "1" };
    private_key = stored [];
    peers = peer (codes "a") ∷ peer name ∷ [];
  };
  net = none;
  wg = none;
  nets = [];
}

abbrev env : Env
env = record { default_bind = 7; ipc_set = λ cfg. none; up = none; run = λ c. none }

lookup-provision_example :
    lookup (codes "srv") (provision plain_text env 0 (inl 3) (server_with (codes "b"))).0.nets
    ≡ some (record { ip = codes "p" })
lookup-provision_example =
    Named.lookup-provision plain_text env 0 (inl 3) (server_with (codes "b")) (codes "srv")
      (ground arith, (ground arith, tt))

clash_run :
    (provision plain_text env 0 (inl 3) (server_with (codes "srv"))).1
    ≡ some (errorf "hostname %q already declared in config" (text (codes "srv") ∷ []))
unfolding provision provisioned_peers lookup insert
clash_run = refl

cleanup-provision_example :
    cleanup env (provision plain_text env 0 (inl 3) (server_with (codes "srv"))).0.wg ≡ nil_pointer
cleanup-provision_example =
    Named.cleanup-provision plain_text env 0 (inl 3) (server_with (codes "srv")) _ clash_run

abbrev client_net : NetClient.ClientNet
client_net = record {
  json = record {
    name = stored (codes "c");
    endpoint = record { value = an_endpoint; original = [] };
    ip = stored [];
    private_key = stored [];
    public_key = stored [];
    preshared = stored [];
  };
  name = [];
  ip = [];
  net = none;
  wg = none;
}

abbrev opened : Wireguard
opened = record {
  tun = netstack 3;
  bind = 7;
  loggers = 0 ∷ [];
  close = none;
  closers = close_netstack 3 ∷ close_bind 7 ∷ close_device ∷ device_down ∷ [];
}

client_run : (NetClient.provision plain_text env 0 (inl 3) client_net).0.wg ≡ some opened
unfolding NetClient.provision new_wireguard apply
client_run = refl

abbrev down : Env
down = record { default_bind = 7; ipc_set = λ cfg. none; up = some (new "down"); run = λ c. none }

down_run :
    (NetClient.provision plain_text down 0 (inl 3) client_net).1
    ≡ some (join_one (join_one (join_one (new "down"))))
unfolding NetClient.provision new_wireguard apply clean_up
down_run = refl

cleanup-provision_client_example :
    cleanup down (NetClient.provision plain_text down 0 (inl 3) client_net).0.wg ≡ nil_pointer
cleanup-provision_client_example =
    Opened.cleanup-provision_client plain_text down 0 3 client_net _ down_run
