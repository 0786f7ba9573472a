-- ===== src/Examples/Networks.antt =====
-- A listener on the network of a WireGuard client, from the configurations to the request.
use point_c.Base.{
  ℕ, ◌≡◌, refl, true, none, some, List, [], ◌∷◌, ◌++◌, Bytes, codes, GoError, ◌⊎◌, inl, ok, arith,
  lookup,
}
use point_c.Configvalues.Unmarshaler.{TextTools}
use point_c.Wg.Connection.{Env, new_wireguard}
use point_c.Wg.Options.{apply}
use point_c.Wg.Netstack.Dial.{Request}
use point_c.WgNetworks.Client
use point_c.WgNetworks.Client.{ClientNet}
use point_c.WgNetworks.Nets.{server_net}
use point_c.Pointc
use point_c.Pointc.{Pointc, Networks, modules}
use point_c.Pointc.Net.{Net}
use point_c.Pointc.Names.{DistinctNames, all_entries, map_modules}
use point_c.Listener.{Listener, with_listener, provision, unmarshal_caddyfile}
use point_c.Listener.Provisioning.{line}
use point_c.Listener.Tunnel
use point_c.Listener.Tunnel.{client_networks, asked}
use point_c.Examples.{plain_text}

abbrev env : Env
env = record { default_bind = 7; ipc_set = λ cfg. none; up = none; run = λ c. none }

abbrev client : ClientNet
client = record {
  json = record {
    name = record { value = codes "c"; original = codes "c" };
    endpoint = record { value = record { ip = []; port = 0; zone = [] }; original = [] };
    ip = record { value = 10 ∷ 0 ∷ 0 ∷ 4 ∷ []; original = codes "10.0.0.4" };
    private_key = record { value = []; original = [] };
    public_key = record { value = []; original = [] };
    preshared = record { value = []; original = [] };
  };
  name = [];
  ip = [];
  net = none;
  wg = none;
}

abbrev client' : ClientNet
client' = (Client.provision plain_text env 0 (inl 3) client).0

provisioned : Client.provision plain_text env 0 (inl 3) client ≡ (client', none)
unfolding Client.provision new_wireguard apply
provisioned = refl

abbrev slice : Bytes → Bytes
slice ip = ip

-- Another network in front of the client's.
abbrev others : List (Networks (Net (Request Bytes)))
others = ((codes "s", server_net slice 2 (record { ip = 10 ∷ 0 ∷ 0 ∷ 1 ∷ [] })) ∷ []) ∷ []

abbrev app : Pointc (Net (Request Bytes))
app = record { networks_raw = some (codes "{}" ∷ codes "{}" ∷ []); networks = []; net = [] }

abbrev all : List (Networks (Net (Request Bytes)))
all = others ++ client_networks slice 1 client' ∷ []

distinct : DistinctNames (all_entries all)
unfolding Client.networks Client.provision lookup
distinct = (refl, (refl, tt))

abbrev plain_tools : TextTools
plain_tools = record {
  replace_all = λ s. s;
  valid_bytes = λ s. true;
  quote = λ s. s;
  unmarshal_string = λ s. none;
}

abbrev listener : Listener ℕ
listener = record {
  name = record { value = []; original = [] };
  port = record { value = 0; original = [] };
  ln = none;
}

abbrev opens : Request Bytes → ℕ ⊎ GoError
opens r = inl 7

provision-client_example :
    (m : Pointc (Net (Request Bytes))) × (Pointc.provision
        (Net (Request Bytes))
        app
        (ok (modules (map_modules all)))
      ≡ ok (m, none))
    × (let r = unmarshal_caddyfile plain_tools listener (line (codes "c") 443) in
        (r.1 ≡ none)
        × (provision opens r.0 (inl m) ≡ with_listener r.0 (opens (asked slice 1 client 443))))
provision-client_example =
    Tunnel.provision-client slice 1 opens plain_text env 0 (inl 3) client client' app
      (codes "{}" ∷ codes "{}" ∷ []) others [] plain_tools listener 443 provisioned refl distinct
      (λ s l. refl) (omega arith) (omega arith)
