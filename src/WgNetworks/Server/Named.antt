-- ===== src/WgNetworks/Server/Named.antt =====
-- Which names the networks of a server have, and when `Provision` refuses a name.
use point_c.Base.{
  ℕ, ◌≡◌, ◌≢◌, ◌∙◌, refl, ap, if◌then◌else◌, Option, none, some, List, [], ◌∷◌, ◌++◌, map, Bytes,
  GoError, errorf, text, lookup, insert, bytes_eq, bytes_eq_refl, bytes_eq_iff, All, append_assoc,
  append-nil, arith, ◌⊎◌,
}
use point_c.Wgapi.Addr.{AddrText}
use point_c.Wgapi.Api.{identity_subnet}
use point_c.Wgconfig
use point_c.Wgconfig.{Peer, server_config}
use point_c.Wg.Connection.{Env}
use point_c.Wg.Connection.Closing.{new_wireguard_failed}
use point_c.WgNetworks.{cleanup, nil_pointer, provision_options}
use point_c.WgNetworks.Server.{
  PeerJson, ServerJson, ServerNet, Server, provision_peers, provisioned_peers, with_peers,
  provision,
}

-- The peer of the configuration that a peer of the JSON becomes.
abbrev pub peer_of : PeerJson → Peer
peer_of p = record {
  public_key = p.public_key.value;
  pre_shared = p.preshared_key.value;
  allowed_ips = identity_subnet p.ip.value ∷ [];
}

-- The address of the last peer, and the first argument where there is none.
abbrev pub last_ip : Bytes → List PeerJson → Bytes
last_ip ip [] = ip
last_ip ip (p ∷ ps) = last_ip p.ip.value ps

-- No peer has this name.
abbrev pub NotNamed : Bytes → List PeerJson → Type 0
NotNamed name = All (λ p. p.name.value ≢ name)

lookup_one :
    (name k : Bytes) (v : ServerNet)
    → lookup k ((name, v) ∷ []) ≡ (if bytes_eq name k then some v else none)
unfolding lookup
lookup_one name k v = refl

insert_one : (name : Bytes) (v w : ServerNet) → insert name w ((name, v) ∷ []) ≡ (name, w) ∷ []
unfolding insert
insert_one name v w = rw (bytes_eq_refl name)

lookup_other : (name k : Bytes) (v : ServerNet) → k ≢ name → lookup k ((name, v) ∷ []) ≡ none
lookup_other name k v h = ground (arith, lookup_one name k v, bytes_eq_iff name k)

lookup_same : (name : Bytes) (v : ServerNet) → lookup name ((name, v) ∷ []) ≡ some v
lookup_same name v = lookup_one name name v ∙ rw (bytes_eq_refl name)

provision_peers_lem :
    (name : Bytes) (ps : List PeerJson) (cfg : Wgconfig.Server) (v : ServerNet)
    → NotNamed name ps
    → provision_peers name ps cfg ((name, v) ∷ []) ≡ (
      record cfg { peers = cfg.peers ++ map peer_of ps },
      (name, record { ip = last_ip v.ip ps }) ∷ [],
      none,
    )
unfolding provision_peers
provision_peers_lem name [] cfg v h = rw append-nil
provision_peers_lem name (p ∷ ps) cfg v (h, hs) =
    rw
      (
        lookup_other name p.name.value v h,
        insert_one name v (record { ip = p.ip.value }),
        provision_peers,
      )
      (provision_peers_lem name ps
          (Wgconfig.add_peer cfg p.public_key.value p.preshared_key.value p.ip.value)
          (record { ip = p.ip.value }) hs
        ∙ rw append_assoc)

-- Where no peer has the server's own name, `Provision` makes a configuration with each peer, in
-- order, at its own address, whatever names the peers have among themselves. But the only network
-- it makes has the server's name, and the address of the last peer.
pub provisioned_peers_lem :
    (json : ServerJson)
    → NotNamed json.name.value json.peers
    → provisioned_peers json ≡ (
      record {
        private_key = json.private_key.value;
        listen_port = json.listen_port.value;
        peers = map peer_of json.peers;
      },
      (json.name.value, record { ip = last_ip json.ip.value json.peers }) ∷ [],
      none,
    )
unfolding provisioned_peers insert
provisioned_peers_lem json h =
    provision_peers_lem json.name.value json.peers _ (record { ip = json.ip.value }) h

provision_peers_clash :
    (name : Bytes) (a b : List PeerJson) (p : PeerJson) (cfg : Wgconfig.Server) (v : ServerNet)
    → NotNamed name a
    → p.name.value ≡ name
    → (provision_peers name (a ++ p ∷ b) cfg ((name, v) ∷ [])).2
      ≡ some (errorf "hostname %q already declared in config" (text p.name.value ∷ []))
unfolding provision_peers
provision_peers_clash name [] b p cfg v h e =
    rw (ap (λ k. lookup k ((name, v) ∷ [])) e ∙ lookup_same name v, provision_peers) refl
provision_peers_clash name (q ∷ a) b p cfg v (h, hs) e =
    rw
      (
        lookup_other name q.name.value v h,
        insert_one name v (record { ip = q.ip.value }),
        provision_peers,
      )
      (provision_peers_clash name a b p
        (Wgconfig.add_peer cfg q.public_key.value q.preshared_key.value q.ip.value)
        (record { ip = q.ip.value }) hs e)

-- The first peer that has the server's name makes `Provision` fail with an error that names it, and
-- no interface is made.
pub provision-clash :
    (net : AddrText) (env : Env) (logger : ℕ) (made : ℕ ⊎ GoError) (c : Server)
    (a b : List PeerJson) (p : PeerJson)
    → c.json.peers ≡ a ++ p ∷ b
    → NotNamed c.json.name.value a
    → p.name.value ≡ c.json.name.value
    → (let (c', e) = provision net env logger made c in
        (e ≡ some (errorf "hostname %q already declared in config" (text p.name.value ∷ [])))
        × (c'.wg ≡ none)
        × (c'.net ≡ none))
unfolding provision provisioned_peers insert
provision-clash net env logger made c a b p split h e = refused (provisioned_peers c.json) (
    ap
      (λ ps.
        (provision_peers c.json.name.value ps start
          ((c.json.name.value, record { ip = c.json.ip.value }) ∷ [])).2)
      split
    ∙ provision_peers_clash c.json.name.value a b p start (record { ip = c.json.ip.value }) h e)
  where
    start : Wgconfig.Server
    start = record {
      private_key = c.json.private_key.value;
      listen_port = c.json.listen_port.value;
      peers = [];
    }

    refused :
        {x : GoError} (r : Wgconfig.Server × List (Bytes × ServerNet) × Option GoError)
        → r.2 ≡ some x
        → (let (c', e) = with_peers net env logger made c.json r in
            (e ≡ some x) × (c'.wg ≡ none) × (c'.net ≡ none))
    refused (cfg, nets, some y) k = (k, refl, refl)
    refused (cfg, nets, none) k = ground arith

-- The server's networks after a `Provision` whose peers do not have its name, whether or not the
-- interface comes up: the server's name stands for the address of the last peer, and no other name,
-- that of a peer included, is found.
pub lookup-provision :
    (net : AddrText) (env : Env) (logger : ℕ) (made : ℕ ⊎ GoError) (c : Server) (k : Bytes)
    → NotNamed c.json.name.value c.json.peers
    → lookup k (provision net env logger made c).0.nets ≡ (
        if bytes_eq c.json.name.value k
        then some (record { ip = last_ip c.json.ip.value c.json.peers })
        else none)
unfolding provision with_peers
lookup-provision net env logger made c k h =
    ap (λ r. lookup k (with_peers net env logger made c.json r).0.nets)
      (provisioned_peers_lem c.json h)
    ∙ lookup_one c.json.name.value k (record { ip = last_ip c.json.ip.value c.json.peers })

-- A `Provision` that fails leaves no interface, and `Cleanup` then dereferences a nil pointer.
pub cleanup-provision :
    (net : AddrText) (env : Env) (logger : ℕ) (made : ℕ ⊎ GoError) (c : Server) (x : GoError)
    → (provision net env logger made c).1 ≡ some x
    → cleanup env (provision net env logger made c).0.wg ≡ nil_pointer
unfolding cleanup provision
cleanup-provision net env logger made c x h =
    ap (cleanup env) (no_wireguard (provisioned_peers c.json) h)
  where
    no_wireguard :
        (r : Wgconfig.Server × List (Bytes × ServerNet) × Option GoError)
        → (with_peers net env logger made c.json r).1 ≡ some x
        → (with_peers net env logger made c.json r).0.wg ≡ none
    no_wireguard (cfg, nets, some y) k = refl
    no_wireguard (cfg, nets, none) k =
        new_wireguard_failed env (provision_options (server_config net cfg) logger made) x k
