-- ===== src/Wg/Netstack/Dial/Ports.antt =====
-- pkg/wg/netstack.go: what the requests of `Net` and `Dialer` carry of the addresses they are
-- given.
use point_c.Base.{
  ℕ, ◌<◌, ◌≡◌, refl, ap, false, [], ◌∷◌, ◌++◌, Bytes, bytes_eq, take, length, none, some, arith,
}
use point_c.Wgapi.Addr.{v4_prefix}
use point_c.Strconv.Int.{ℤ, pos, negsuc}
use point_c.Wg.Netstack.Dial.{
  u16_mod, wrap, SockAddr, to4, FullAddress, Request, listen_tcp, dial_udp, dial_tcp_with_bind,
  Dialer, listen, listen_packet, new_dialer, dial_tcp, dial_udp_addr,
}

-- The addresses in a request, all of the device's NIC and with ports of 16 bits.
module _ {Addr : Type 0} (nic : ℕ) where
  abbrev pub IsLocal : FullAddress Addr → Type 0
  IsLocal a = (a.nic ≡ nic) × (a.port < u16_mod)

  abbrev pub IsRequest : Request Addr → Type 0
  IsRequest (listen_tcp a) = IsLocal a
  IsRequest (dial_udp a none) = IsLocal a
  IsRequest (dial_udp a (some b)) = IsLocal a × IsLocal b
  IsRequest (dial_tcp_with_bind a b) = IsLocal a × IsLocal b

pub wrap_bound : (p : ℤ) → wrap u16_mod p < u16_mod
wrap_bound (pos n) = omega arith
wrap_bound (negsuc n) = omega arith

pub wrap_id : (n : ℕ) → n < u16_mod → wrap u16_mod (pos n) ≡ n
wrap_id n h = omega arith

-- Every request of `Net`, and of a `Dialer` that it makes for a 16-bit port, names the device's NIC
-- and ports of 16 bits, whatever ports the addresses give. For an address with a port below 65536,
-- `Listen` and `ListenPacket` listen with TCP and with UDP at the address and the port, and `DialTCP`
-- and `DialUDP` dial with TCP and with UDP, from the dialer's own address, to the IPv4 form of the
-- address and the port.
pub requests-IsRequest :
    {Addr : Type 0} (from : Bytes → Addr) (nic port : ℕ) (laddr : Bytes) (a : SockAddr)
    → port < u16_mod
    → (let d = new_dialer from nic laddr port in
        IsRequest nic (listen from nic a)
        × IsRequest nic (listen_packet from nic a)
        × IsRequest nic (dial_tcp from d a)
        × IsRequest nic (dial_udp_addr from d a)
        × ((n : ℕ)
            → n < u16_mod
            → let b : SockAddr = record { ip = a.ip; port = pos n } in
              let own : FullAddress Addr = record { nic = nic; addr = from laddr; port = port } in
              let near : FullAddress Addr = record { nic = nic; addr = from a.ip; port = n } in
              let far : FullAddress Addr = record { nic = nic; addr = from (to4 a.ip); port = n } in
              (listen from nic b ≡ listen_tcp near)
              × (listen_packet from nic b ≡ dial_udp near none)
              × (dial_tcp from d b ≡ dial_tcp_with_bind own far)
              × (dial_udp_addr from d b ≡ dial_udp own (some far))))
unfolding listen listen_packet new_dialer dial_tcp dial_udp_addr
requests-IsRequest from nic port laddr a h = (
  (refl, wrap_bound a.port),
  (refl, wrap_bound a.port),
  ((refl, h), (refl, wrap_bound a.port)),
  ((refl, h), (refl, wrap_bound a.port)),
  λ n k.
      let own : FullAddress _ = record { nic = nic; addr = from laddr; port = port } in
      let near : ℕ → FullAddress _ = λ p. record { nic = nic; addr = from a.ip; port = p } in
      let far : ℕ → FullAddress _ = λ p. record { nic = nic; addr = from (to4 a.ip); port = p } in
      (
        ap (λ p. listen_tcp (near p)) (wrap_id n k),
        ap (λ p. dial_udp (near p) none) (wrap_id n k),
        ap (λ p. dial_tcp_with_bind own (far p)) (wrap_id n k),
        ap (λ p. dial_udp own (some (far p))) (wrap_id n k),
      ),
)

to4_four : (ip : Bytes) → length ip ≡ 4 → to4 ip ≡ ip
to4_four ip h = ground arith

-- An IPv4 address has one form of four bytes and one of sixteen, and both dial the same.
to4_mapped : (a b c d : ℕ) → to4 (v4_prefix ++ a ∷ b ∷ c ∷ d ∷ []) ≡ a ∷ b ∷ c ∷ d ∷ []
to4_mapped a b c d = refl

pub dial_tcp-mapped :
    {Addr : Type 0} (from : Bytes → Addr) (dialer : Dialer Addr) (a b c d : ℕ) (port : ℤ)
    → let four = a ∷ b ∷ c ∷ d ∷ [] in
      dial_tcp from dialer (record { ip = v4_prefix ++ four; port = port })
      ≡ dial_tcp from dialer (record { ip = four; port = port })
unfolding dial_tcp
dial_tcp-mapped from dialer a b c d port = refl

-- An address that is neither is dialled as no address at all.
to4_other : (ip : Bytes) → length ip ≡ 16 → bytes_eq (take 12 ip) v4_prefix ≡ false → to4 ip ≡ []
to4_other ip h k = ground arith

pub dial_tcp_other :
    {Addr : Type 0} (from : Bytes → Addr) (dialer : Dialer Addr) (ip : Bytes) (port : ℤ)
    → length ip ≡ 16
    → bytes_eq (take 12 ip) v4_prefix ≡ false
    → dial_tcp from dialer (record { ip = ip; port = port })
      ≡ dial_tcp from dialer (record { ip = []; port = port })
unfolding dial_tcp
dial_tcp_other from dialer ip port h k = rw (to4_other ip h k)
