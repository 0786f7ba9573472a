-- ===== src/Forward/Handler/Tunnel.antt =====
-- forward.go: from the text of a pair of ports to the requests of its forwarder.
use mathlib.Core.Path.{subst}
use point_c.Base.{ℕ, ◌^◌, ◌<◌, ◌≡◌, ◌∙◌, refl, sym, ap, Option, none, ◌∷◌, Bytes, inl, Lacks}
use point_c.Strconv.{format_uint}
use point_c.Forward.PortPair.{
  PortPair, PairTools, zero_pair, unmarshal_pair, get_src, get_dst, is_udp, get_host,
}
use point_c.Forward.PortPair.Read.{pair_text, unspecified, stored_port, unmarshal_pair-pair_text}
use point_c.Forward.App.{Forwarder, AddrTools, addr_text, tcp_forwarder}
use point_c.Forward.App.Provisioning.{tcp_forwarder_sound}
use point_c.Forward.Handler.{dial_request}
use point_c.Pointc.Net.{Net}
use point_c.Wg.Netstack.Dial.{Request, dial_tcp_with_bind, to4}
use point_c.WgNetworks.Nets.{IsTunnel}

-- The pair of two ports alone.
abbrev two_ports : ℕ → ℕ → PortPair
two_ports src dst = record zero_pair { src = stored_port src; dst = stored_port dst }

module _ {Addr Socket : Type 0} (at : AddrTools Socket) (from : Bytes → Addr) (nic : ℕ) where
  two_ports_lem :
      (lookup : Bytes → Option (Net (Request Addr))) (src dst : ℕ)
      → (get_dst (two_ports src dst) ≡ dst)
        × (addr_text at lookup (two_ports src dst) ≡ b':' ∷ format_uint src)
  unfolding get_dst addr_text get_src is_udp get_host
  two_ports_lem lookup src dst = (refl, refl)

  dial_request_at :
      (n : Net (Request Addr)) (dst : ℕ) (remote : Bytes)
      → IsTunnel from nic n
      → dst < 2 ^ 16
      → dial_request n dst remote
        ≡ dial_tcp_with_bind
            (record { nic = nic; addr = from remote; port = 0 })
            (record { nic = nic; addr = from (to4 n.local_addr); port = dst })
  unfolding dial_request
  dial_request_at n dst remote t h = t.dials remote 0 n.local_addr dst h

  -- Where the replacer leaves a text without a brace as it is: the forwarder of the text
  -- `<src>:<dst>`, with ports below 65536, on a network that keeps the promise of the interface. It
  -- listens where Caddy parses the address `:<src>`, and for a connection from an address it dials
  -- in the tunnel, from this address, to the network's own address, in its IPv4 form, at the port
  -- `<dst>`.
  pub dial_request-unmarshal_pair :
      (pt : PairTools) (lookup : Bytes → Option (Net (Request Addr))) (n : Net (Request Addr))
      (src dst : ℕ) (remote : Bytes) (f : Forwarder (Net (Request Addr)) Socket)
      → ((s : Bytes) → Lacks b'{' s → pt.tools.replace_all s ≡ s)
      → IsTunnel from nic n
      → src < 2 ^ 16
      → dst < 2 ^ 16
      → tcp_forwarder at lookup n
          (unmarshal_pair pt zero_pair (pair_text none src dst unspecified)).0
        ≡ inl f
      → (at.parse_network_address (b':' ∷ format_uint src) ≡ inl f.addr)
        × (dial_request f.net f.dst remote
            ≡ dial_tcp_with_bind
                (record { nic = nic; addr = from remote; port = 0 })
                (record { nic = nic; addr = from (to4 n.local_addr); port = dst }))
  dial_request-unmarshal_pair pt lookup n src dst remote f plain t hs hd made =
      let read =
        ap (λ r. r.0)
          (unmarshal_pair-pair_text pt plain zero_pair none src dst unspecified tt hs hd) in
      let (same, port, addr) =
        tcp_forwarder_sound at lookup n (two_ports src dst) f
          (ap (tcp_forwarder at lookup n) (sym read) ∙ made) in
      let (d, a) = two_ports_lem lookup src dst in
      (
        subst (λ s. at.parse_network_address s ≡ inl f.addr) a addr,
        ap (λ m. dial_request m f.dst remote) (sym same)
            ∙ ap (λ p. dial_request n p remote) (port ∙ d)
            ∙ dial_request_at n dst remote t hd,
      )
