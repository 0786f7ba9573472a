-- ===== src/WgNetworks/Nets.antt =====
-- module/networks/wg: `serverNet`, `serverDialer`, `clientNet` and `clientDialer`, which hand the
-- calls of `Net` and `Dialer` on to the network device. The definitions are those of a network whose
-- `Provision` has succeeded, and `nic` is the NIC of its device; before that the device is nil, and
-- a call panics.
use point_c.Base.{some, none, ℕ, ◌^◌, ◌<◌, ◌≡◌, ap, Bytes}
use point_c.Strconv.Int.{pos}
use point_c.Pointc.Net.{Net, NetDialer}
use point_c.Wg.Netstack.Dial.{
  SockAddr, Request, Dialer, to4, listen, listen_packet, new_dialer, dial_tcp, dial_udp_addr,
  dial_tcp_with_bind, dial_udp, listen_tcp,
}
use point_c.Wg.Netstack.Dial.Ports.{IsRequest, requests-IsRequest, wrap_id}
use point_c.WgNetworks.Client.{ClientNet}
use point_c.WgNetworks.Server.{ServerNet}

module _ {Addr : Type 0} (addr_from_slice : Bytes → Addr) (nic : ℕ) where
  -- `serverDialer`.
  unfoldable pub server_dialer : Dialer Addr → NetDialer (Request Addr)
  server_dialer d = record {
    dial = dial_tcp addr_from_slice d;
    dial_packet = dial_udp_addr addr_from_slice d;
  }

  -- `serverNet`.
  unfoldable pub server_net : ServerNet → Net (Request Addr)
  server_net s = record {
    listen = listen addr_from_slice nic;
    listen_packet = listen_packet addr_from_slice nic;
    dialer = λ laddr port. server_dialer (new_dialer addr_from_slice nic laddr port);
    local_addr = s.ip;
  }

  -- `clientDialer`.
  unfoldable pub client_dialer : Dialer Addr → NetDialer (Request Addr)
  client_dialer d = record {
    dial = dial_tcp addr_from_slice d;
    dial_packet = dial_udp_addr addr_from_slice d;
  }

  -- `clientNet`.
  unfoldable pub client_net : ClientNet → Net (Request Addr)
  client_net c = record {
    listen = listen addr_from_slice nic;
    listen_packet = listen_packet addr_from_slice nic;
    dialer = λ laddr port. client_dialer (new_dialer addr_from_slice nic laddr port);
    local_addr = c.ip;
  }

  -- What the application promises itself of a network: it listens and dials in the tunnel of this
  -- device, at the addresses and ports that it is told.
  pub record IsTunnel (n : Net (Request Addr)) : Type 0 where
    pub listens :
        (ip : Bytes) (port : ℕ)
        → port < 2 ^ 16
        → n.listen (record { ip = ip; port = pos port })
          ≡ listen_tcp (record { nic = nic; addr = addr_from_slice ip; port = port })
    pub dials :
        (laddr : Bytes) (lport : ℕ) (ip : Bytes) (port : ℕ)
        → port < 2 ^ 16
        → (n.dialer laddr lport).dial (record { ip = ip; port = pos port })
          ≡ dial_tcp_with_bind
              (record { nic = nic; addr = addr_from_slice laddr; port = lport })
              (record { nic = nic; addr = addr_from_slice (to4 ip); port = port })
    pub listens_packet :
        (ip : Bytes) (port : ℕ)
        → port < 2 ^ 16
        → n.listen_packet (record { ip = ip; port = pos port })
          ≡ dial_udp (record { nic = nic; addr = addr_from_slice ip; port = port }) none
    pub dials_packet :
        (laddr : Bytes) (lport : ℕ) (ip : Bytes) (port : ℕ)
        → port < 2 ^ 16
        → (n.dialer laddr lport).dial_packet (record { ip = ip; port = pos port })
          ≡ dial_udp
              (record { nic = nic; addr = addr_from_slice laddr; port = lport })
              (some (record { nic = nic; addr = addr_from_slice (to4 ip); port = port }))
    pub confined :
        (laddr : Bytes) (lport : ℕ) (a : SockAddr)
        → lport < 2 ^ 16
        → IsRequest nic (n.listen a)
          × IsRequest nic (n.listen_packet a)
          × IsRequest nic ((n.dialer laddr lport).dial a)
          × IsRequest nic ((n.dialer laddr lport).dial_packet a)

  pub server_net-IsTunnel : (s : ServerNet) → IsTunnel (server_net s)
  unfolding server_net server_dialer listen listen_packet new_dialer dial_tcp dial_udp_addr
  server_net-IsTunnel s = record {
    listens = λ ip port h.
        ap (λ p. listen_tcp (record { nic = nic; addr = addr_from_slice ip; port = p }))
          (wrap_id port h);
    dials = λ laddr lport ip port h.
        ap
          (λ p.
            dial_tcp_with_bind (record { nic = nic; addr = addr_from_slice laddr; port = lport })
              (record { nic = nic; addr = addr_from_slice (to4 ip); port = p }))
          (wrap_id port h);
    listens_packet = λ ip port h.
        ap (λ p. dial_udp (record { nic = nic; addr = addr_from_slice ip; port = p }) none)
          (wrap_id port h);
    dials_packet = λ laddr lport ip port h.
        ap
          (λ p.
            dial_udp (record { nic = nic; addr = addr_from_slice laddr; port = lport })
              (some (record { nic = nic; addr = addr_from_slice (to4 ip); port = p })))
          (wrap_id port h);
    confined = λ laddr lport a h.
        let (l, p, d, u, ports) = requests-IsRequest addr_from_slice nic lport laddr a h in
        (l, p, d, u);
  }

  pub client_net-IsTunnel : (c : ClientNet) → IsTunnel (client_net c)
  unfolding client_net client_dialer listen listen_packet new_dialer dial_tcp dial_udp_addr
  client_net-IsTunnel c = record {
    listens = λ ip port h.
        ap (λ p. listen_tcp (record { nic = nic; addr = addr_from_slice ip; port = p }))
          (wrap_id port h);
    dials = λ laddr lport ip port h.
        ap
          (λ p.
            dial_tcp_with_bind (record { nic = nic; addr = addr_from_slice laddr; port = lport })
              (record { nic = nic; addr = addr_from_slice (to4 ip); port = p }))
          (wrap_id port h);
    listens_packet = λ ip port h.
        ap (λ p. dial_udp (record { nic = nic; addr = addr_from_slice ip; port = p }) none)
          (wrap_id port h);
    dials_packet = λ laddr lport ip port h.
        ap
          (λ p.
            dial_udp (record { nic = nic; addr = addr_from_slice laddr; port = lport })
              (some (record { nic = nic; addr = addr_from_slice (to4 ip); port = p })))
          (wrap_id port h);
    confined = λ laddr lport a h.
        let (l, p, d, u, ports) = requests-IsRequest addr_from_slice nic lport laddr a h in
        (l, p, d, u);
  }

  -- The networks of a server and of a client whose device is up keep the promise `IsTunnel` of the
  -- interface: every request names the device's NIC and 16-bit ports; for an address with a port
  -- below 65536, a TCP or a UDP listener is opened at the address and the port, and TCP or UDP is
  -- dialled, from the address and the port that the dialer was made for, to the IPv4 form of the
  -- address and the port.
  pub nets-IsTunnel :
      (s : ServerNet) (c : ClientNet) → IsTunnel (server_net s) × IsTunnel (client_net c)
  nets-IsTunnel s c = (server_net-IsTunnel s, client_net-IsTunnel c)
