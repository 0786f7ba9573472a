-- ===== src/Examples/Tunnels.antt =====
-- The networks, the listener on a network and the forwarder, at concrete inputs.
use point_c.Base.{
  ℕ, ◌<◌, ◌≡◌, refl, none, some, [], ◌∷◌, Bytes, codes, GoError, Option, inl, inr, ◌⊎◌, arith, cut,
  lookup, ok, true,
}
use point_c.Strconv.{format_uint, parse_uint}
use point_c.Strconv.Int.{pos, negsuc}
use point_c.Configvalues.Unmarshaler.{TextTools}
use point_c.Configvalues.Ports.{KeepsPlain}
use point_c.Wg.Netstack.Dial.{
  u16_mod, SockAddr, FullAddress, dial_udp, Request, listen_tcp, dial_tcp_with_bind, to4, listen,
  listen_packet, new_dialer, dial_tcp, dial_udp_addr,
}
use point_c.Wg.Netstack.Dial.Ports
use point_c.Wg.Netstack.Dial.Ports.{IsRequest}
use point_c.WgNetworks.Server.{ServerNet}
use point_c.WgNetworks.Client.{ClientNet}
use point_c.WgNetworks.Nets
use point_c.WgNetworks.Nets.{IsTunnel, server_net, client_net, server_net-IsTunnel}
use point_c.Pointc.{Pointc, lookup_net}
use point_c.Pointc.Net.{Net}
use point_c.Listener.{Listener, provision, unmarshal_caddyfile, result, delegate}
use point_c.Listener.Provisioning
use point_c.Listener.Provisioning.{line}
use point_c.Forward.PortPair.{
  PairTools, zero_pair, unmarshal_pair, get_src, get_dst, is_udp, get_host,
}
use point_c.Forward.PortPair.Read.{pair_text, unspecified}
use point_c.Forward.App.{Forwarder, AddrTools, addr_text, tcp_forwarder}
use point_c.Forward.Handler.{dial_request}
use point_c.Forward.Handler.Tunnel

-- An address is its bytes.
abbrev from_slice : Bytes → Bytes
from_slice ip = ip

abbrev negative : SockAddr
negative = record { ip = 10 ∷ 0 ∷ 0 ∷ 1 ∷ []; port = negsuc 0 }

requests-IsRequest_example :
    (let d = new_dialer from_slice 1 (10 ∷ 0 ∷ 0 ∷ 2 ∷ []) 80 in
      IsRequest 1 (listen from_slice 1 negative)
      × IsRequest 1 (listen_packet from_slice 1 negative)
      × IsRequest 1 (dial_tcp from_slice d negative)
      × IsRequest 1 (dial_udp_addr from_slice d negative)
      × ((n : ℕ)
          → n < u16_mod
          → let b : SockAddr = record { ip = negative.ip; port = pos n } in
            let own : FullAddress Bytes = record {
              nic = 1;
              addr = 10 ∷ 0 ∷ 0 ∷ 2 ∷ [];
              port = 80;
            } in
            let near : FullAddress Bytes = record { nic = 1; addr = negative.ip; port = n } in
            let far : FullAddress Bytes = record { nic = 1; addr = to4 negative.ip; port = n } in
            (listen from_slice 1 b ≡ listen_tcp near)
            × (listen_packet from_slice 1 b ≡ dial_udp near none)
            × (dial_tcp from_slice d b ≡ dial_tcp_with_bind own far)
            × (dial_udp_addr from_slice d b ≡ dial_udp own (some far))))
requests-IsRequest_example =
    Ports.requests-IsRequest from_slice 1 80 (10 ∷ 0 ∷ 0 ∷ 2 ∷ []) negative (omega arith)

abbrev peer_net : ServerNet
peer_net = record { ip = 10 ∷ 0 ∷ 0 ∷ 3 ∷ [] }

abbrev tunnel : Net (Request Bytes)
tunnel = server_net from_slice 1 peer_net

abbrev a_client : ClientNet
a_client = record {
  json = record {
    name = record { value = []; original = [] };
    endpoint = record { value = record { ip = []; port = 0; zone = [] }; original = [] };
    ip = record { value = []; original = [] };
    private_key = record { value = []; original = [] };
    public_key = record { value = []; original = [] };
    preshared = record { value = []; original = [] };
  };
  name = codes "c";
  ip = 10 ∷ 0 ∷ 0 ∷ 4 ∷ [];
  net = some 0;
  wg = none;
}

nets-IsTunnel_example :
    IsTunnel from_slice 1 (server_net from_slice 1 peer_net)
    × IsTunnel from_slice 1 (client_net from_slice 1 a_client)
nets-IsTunnel_example = Nets.nets-IsTunnel from_slice 1 peer_net a_client

abbrev plain_tools : TextTools
plain_tools = record {
  replace_all = λ s. s;
  valid_bytes = λ s. true;
  quote = λ s. s;
  unmarshal_string = λ s. none;
}

plain_tools_lem : KeepsPlain plain_tools
plain_tools_lem s l = refl

abbrev an_app : Pointc (Net (Request Bytes))
an_app = record { networks_raw = none; networks = []; net = (codes "n", tunnel) ∷ [] }

abbrev no_listener : Listener ℕ
no_listener = record {
  name = record { value = []; original = [] };
  port = record { value = 0; original = [] };
  ln = none;
}

abbrev opens : Request Bytes → ℕ ⊎ GoError
opens r = inl 7

lookup_run : lookup_net (Net (Request Bytes)) an_app (codes "n") ≡ some tunnel
unfolding lookup_net lookup
lookup_run = refl

abbrev asked : ℕ → Request Bytes
asked port = listen_tcp (record { nic = 1; addr = tunnel.local_addr; port = port })

provision-unmarshal_caddyfile_example :
    (let r = unmarshal_caddyfile plain_tools no_listener (line (codes "n") 443) in
      (r.1 ≡ none)
      × ((ln : ℕ)
          → opens (asked 443) ≡ inl ln
          → (provision opens r.0 (inl an_app) ≡ (record r.0 { ln = some ln }, none))
            × ((method : ℕ → ℕ)
                → delegate method (provision opens r.0 (inl an_app)).0 ≡ result (method ln)))
      × ((x : GoError)
          → opens (asked 443) ≡ inr x
          → provision opens r.0 (inl an_app) ≡ (r.0, some x)))
provision-unmarshal_caddyfile_example =
    Provisioning.provision-unmarshal_caddyfile opens plain_tools from_slice 1 tunnel an_app
      no_listener (codes "n") 443 plain_tools_lem (Nets.server_net-IsTunnel from_slice 1 peer_net)
      (omega arith) (omega arith) lookup_run

abbrev plain_pair : PairTools
plain_pair = record { tools = plain_tools; parse_ip = λ s. ok s }

abbrev sockets : AddrTools Bytes
sockets = record { print_ip = λ ip. ip; parse_network_address = λ s. inl s }

abbrev nowhere : Bytes → Option (Net (Request Bytes))
nowhere name = none

abbrev a_forwarder : Forwarder (Net (Request Bytes)) Bytes
a_forwarder = record { net = tunnel; dst = 80; addr = codes ":8080" }

forwarder_run :
    tcp_forwarder sockets nowhere tunnel
      (unmarshal_pair plain_pair zero_pair (pair_text none 8080 80 unspecified)).0
    ≡ inl a_forwarder
unfolding tcp_forwarder unmarshal_pair addr_text get_src get_dst is_udp get_host format_uint
    parse_uint cut
forwarder_run = refl

dial_request-unmarshal_pair_example :
    (sockets.parse_network_address (b':' ∷ format_uint 8080) ≡ inl a_forwarder.addr)
    × (dial_request a_forwarder.net a_forwarder.dst (1 ∷ 2 ∷ 3 ∷ 4 ∷ [])
        ≡ dial_tcp_with_bind
            (record { nic = 1; addr = 1 ∷ 2 ∷ 3 ∷ 4 ∷ []; port = 0 })
            (record { nic = 1; addr = to4 tunnel.local_addr; port = 80 }))
dial_request-unmarshal_pair_example =
    Tunnel.dial_request-unmarshal_pair sockets from_slice 1 plain_pair nowhere tunnel 8080 80
      (1 ∷ 2 ∷ 3 ∷ 4 ∷ []) a_forwarder plain_tools_lem
      (Nets.server_net-IsTunnel from_slice 1 peer_net) (omega arith) (omega arith) forwarder_run
