-- ===== src/Wg/Netstack/Dial.antt =====
-- pkg/wg/netstack.go, `Net` and `Dialer`: the requests to listen and to dial that are made of the
-- network stack. An error of the stack is returned as it is.
pub mod Ports
use point_c.Base.{
  ℕ, suc, ◌+◌, ◌-◌, ◌%◌, ◌^◌, ◌<◌, ◌==◌, ◌&&◌, Bool, true, false, if◌then◌else◌, List, [], ◌∷◌,
  Bytes, bytes_eq, take, drop, length, Option, none, some,
}
use point_c.Wgapi.Addr.{v4_prefix}
use point_c.Strconv.Int.{ℤ, pos, negsuc}

abbrev pub u16_mod : ℕ
u16_mod = 2 ^ 16

abbrev pub u32_mod : ℕ
u32_mod = 2 ^ 32

-- The conversion of an `int` to an unsigned type of `m` values.
abbrev pub wrap : ℕ → ℤ → ℕ
wrap m (pos n) = n % m
wrap m (negsuc n) = m - 1 - n % m

-- `*net.TCPAddr` and `*net.UDPAddr`.
pub record SockAddr : Type 0 where
  pub ip : Bytes
  pub port : ℤ

-- `net.IP.To4` of the Go library: an address of four bytes, the last four of an address that begins
-- like the IPv4 addresses in IPv6 form, or nil.
abbrev pub to4 : Bytes → Bytes
to4 ip =
    if length ip == 4
    then ip
    else if (length ip == 16) && bytes_eq (take 12 ip) v4_prefix
    then drop 12 ip
    else []

-- `tcpip.FullAddress`, with gVisor's addresses as `Addr`.
pub record FullAddress (Addr : Type 0) : Type 0 where
  pub nic : ℕ
  pub addr : Addr
  pub port : ℕ

-- The calls of gonet, all with `ipv4.ProtocolNumber`.
pub data Request (Addr : Type 0) : Type 0 where
  listen_tcp : FullAddress Addr → Request Addr
  dial_udp : FullAddress Addr → Option (FullAddress Addr) → Request Addr
  dial_tcp_with_bind : FullAddress Addr → FullAddress Addr → Request Addr

-- `Dialer`, with its device's `defaultNIC`.
pub record Dialer (Addr : Type 0) : Type 0 where
  pub default_nic : ℕ
  pub laddr : FullAddress Addr

-- For `tcpip.AddrFromSlice` and the NIC of the device.
module _ {Addr : Type 0} (addr_from_slice : Bytes → Addr) where
  abbrev pub full_address : ℕ → Bytes → ℕ → FullAddress Addr
  full_address nic ip port = record { nic = nic; addr = addr_from_slice ip; port = port }

  -- `Net.Listen`.
  unfoldable pub listen : ℕ → SockAddr → Request Addr
  listen nic addr = listen_tcp (full_address nic addr.ip (wrap u16_mod addr.port))

  -- `Net.ListenPacket`.
  unfoldable pub listen_packet : ℕ → SockAddr → Request Addr
  listen_packet nic addr = dial_udp (full_address nic addr.ip (wrap u16_mod addr.port)) none

  -- `Net.Dialer`.
  unfoldable pub new_dialer : ℕ → Bytes → ℕ → Dialer Addr
  new_dialer nic laddr port = record { default_nic = nic; laddr = full_address nic laddr port }

  -- `Dialer.DialTCP`.
  unfoldable pub dial_tcp : Dialer Addr → SockAddr → Request Addr
  dial_tcp d addr =
      dial_tcp_with_bind d.laddr (full_address d.default_nic (to4 addr.ip) (wrap u16_mod addr.port))

  -- `Dialer.DialUDP`.
  unfoldable pub dial_udp_addr : Dialer Addr → SockAddr → Request Addr
  dial_udp_addr d addr =
      dial_udp d.laddr (some (full_address d.default_nic (to4 addr.ip) (wrap u16_mod addr.port)))
