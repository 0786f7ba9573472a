-- ===== src/Listener/Tunnel.antt =====
-- module/networks/wg/client.go, point-c.go and listener.go together: a listener on the network of a
-- WireGuard client.
use mathlib.Core.Path.{subst}
use point_c.Base.{
  ℕ, ◌^◌, ◌<◌, ◌≡◌, ◌∙◌, refl, sym, ap, none, some, List, [], ◌∷◌, ◌++◌, map, Bytes, Lacks, GoError,
  ◌⊎◌, inl, ok, lookup, bytes_eq_iff, bytes_eq_refl, arith, append_assoc,
}
use point_c.Strconv.Int.{pos}
use point_c.Configvalues.Unmarshaler.{TextTools}
use point_c.Configvalues.Ports.{KeepsPlain}
use point_c.Wgapi.Addr.{AddrText}
use point_c.Wg.Connection.{Env}
use point_c.Wg.Netstack.Dial.{Request, listen_tcp}
use point_c.WgNetworks.Client
use point_c.WgNetworks.Client.{ClientNet, networks}
use point_c.WgNetworks.Nets.{client_net, client_net-IsTunnel}
use point_c.Pointc
use point_c.Pointc.{Pointc, Networks, modules, lookup_net}
use point_c.Pointc.Net.{Net}
use point_c.Pointc.Names.{DistinctNames, all_entries, map_modules, lookup_net-provision}
use point_c.Listener.{Listener, with_listener, provision, unmarshal_caddyfile}
use point_c.Listener.Provisioning.{line, named, line_read, provision_found, listen_on_asked}

module _ {N : Type 0} where
  all_entries-append :
      (a b : List (Networks N)) → all_entries (a ++ b) ≡ all_entries a ++ all_entries b
  all_entries-append [] b = refl
  all_entries-append (n ∷ a) b =
      ap (◌++◌ n) (all_entries-append a b) ∙ sym (append_assoc n (all_entries a) (all_entries b))

  -- A name that is bound once is found wherever it stands.
  lookup-DistinctNames :
      (a b : Networks N) (k : Bytes) (v : N)
      → DistinctNames (a ++ (k, v) ∷ b)
      → lookup k (a ++ (k, v) ∷ b) ≡ some v
  unfolding lookup
  lookup-DistinctNames [] b k v d = ground (arith, bytes_eq_refl k)
  lookup-DistinctNames ((j, w) ∷ a) b k v (free, d) =
      ground (arith, lookup-DistinctNames a b k v d, free, bytes_eq_iff j k, bytes_eq_iff k j)

module _ {Addr : Type 0} (from : Bytes → Addr) (nic : ℕ) where
  -- `Client.Networks`, as the map of `Net`s that the app takes.
  abbrev pub client_networks : ClientNet → Networks (Net (Request Addr))
  client_networks c = map (λ e. (e.0, client_net from nic e.1)) (networks c)

  client_networks_provisioned :
      (net : AddrText) (env : Env) (logger : ℕ) (made : ℕ ⊎ GoError) (c c' : ClientNet)
      → Client.provision net env logger made c ≡ (c', none)
      → (client_networks c' ≡ (c.json.name.value, client_net from nic c') ∷ [])
        × (c'.ip ≡ c.json.ip.value)
  unfolding networks Client.provision
  client_networks_provisioned net env logger made c c' h =
      (ap (λ r. (r.0.name, client_net from nic c') ∷ []) (sym h), ap (λ r. r.0.ip) (sym h))

  -- The request that the client's network makes for its own address and a port.
  abbrev pub asked : ClientNet → ℕ → Request Addr
  asked c port = listen_tcp (record { nic = nic; addr = from c.json.ip.value; port = port })

  listen-local_addr :
      (c c' : ClientNet) (port : ℕ)
      → c'.ip ≡ c.json.ip.value
      → port < 2 ^ 16
      → let n = client_net from nic c' in
        n.listen (record { ip = n.local_addr; port = pos port }) ≡ asked c port
  unfolding client_net
  listen-local_addr c c' port same k =
      (client_net-IsTunnel from nic c').listens c'.ip port k
      ∙ ap (λ ip. listen_tcp (record { nic = nic; addr = from ip; port = port })) same

  module _ {Ln : Type 0} (open_listener : Request Addr → Ln ⊎ GoError) where
    -- Where the replacer leaves a text without a brace as it is, for an app with networks configured:
    -- a WireGuard client whose `Provision` succeeds, among other networks of which no two have one
    -- name, and a listener that is read from the line `point-c <name> <port>`, with the client's name,
    -- which has no brace, and a port below 65536. The app's `Provision` succeeds, and that of the
    -- listener opens a TCP listener in the tunnel, at the address of the client's configuration and
    -- this port, and stores it or returns the error of the stack.
    pub provision-client :
        (net : AddrText) (env : Env) (logger : ℕ) (made : ℕ ⊎ GoError) (c c' : ClientNet)
        (wg : Pointc (Net (Request Addr))) (raw : List Bytes)
        (before after : List (Networks (Net (Request Addr)))) (tools : TextTools) (p : Listener Ln)
        (port : ℕ)
        → Client.provision net env logger made c ≡ (c', none)
        → wg.networks_raw ≡ some raw
        → DistinctNames (all_entries (before ++ client_networks c' ∷ after))
        → KeepsPlain tools
        → Lacks b'{' c.json.name.value
        → port < 2 ^ 16
        → (m : Pointc (Net (Request Addr))) × (Pointc.provision
              (Net (Request Addr))
              wg
              (ok (modules (map_modules (before ++ client_networks c' ∷ after))))
            ≡ ok (m, none))
          × (let r = unmarshal_caddyfile tools p (line c.json.name.value port) in
              (r.1 ≡ none)
              × (provision open_listener r.0 (inl m)
                  ≡ with_listener r.0 (open_listener (asked c port))))
    provision-client net env logger made c c' wg raw before after tools p port up h d plain t k =
        let (shown, at) = client_networks_provisioned net env logger made c c' up in
        let ns = before ++ client_networks c' ∷ after in
        let name = c.json.name.value in
        let (m, e, find) = lookup_net-provision wg raw ns h d in
        let entries : all_entries ns
            ≡ all_entries before ++ (name, client_net from nic c') ∷ all_entries after =
          all_entries-append before (client_networks c' ∷ after)
          ∙ ap (λ l. all_entries before ++ (l ++ all_entries after)) shown in
        let found : lookup_net (Net (Request Addr)) m name ≡ some (client_net from nic c') =
          find name
          ∙ ap (lookup name) entries
          ∙ lookup-DistinctNames (all_entries before) (all_entries after) name
              (client_net from nic c') (subst DistinctNames entries d) in
        let q = named p name port in
        (
          m,
          e,
          rw (line_read tools plain p name port t k) (
            refl,
            provision_found open_listener q m (client_net from nic c') found
                ∙ listen_on_asked open_listener q (client_net from nic c') (asked c port)
                    (open_listener (asked c port)) (listen-local_addr c c' port at k) refl,
          ),
        )
