-- ===== src/Wgapi/Addr.antt =====
-- The address structs of Go's net package, and their text forms, which package net implements:
-- `ParseCIDR`, `IPNet.String`, `ResolveUDPAddr` (it asks the name service) and `UDPAddr.String`.
use point_c.Base.{
  ℕ, zero, suc, ◌≤◌, ◌<◌, ◌^◌, ◌≡◌, ◌==◌, ◌&&◌, ◌⊎◌, Bool, if◌then◌else◌, [], ◌∷◌, ◌++◌, Bytes,
  bytes_eq, take, drop, length, Result, ok, Lacks, All,
}
use point_c.Hex.{IsByte}

-- net.IPNet; `ip` and `mask` are byte slices.
pub record IpNet : Type 0 where
  pub ip : Bytes
  pub mask : Bytes

-- net.UDPAddr; package net makes no negative ports.
pub record UdpAddr : Type 0 where
  pub ip : Bytes
  pub port : ℕ
  pub zone : Bytes

-- A list of `n` equal bytes.
abbrev pub repeat : ℕ → ℕ → Bytes
repeat zero b = []
repeat (suc n) b = b ∷ repeat n b

-- How an IPv4 address in the form of 16 bytes begins.
abbrev pub v4_prefix : Bytes
v4_prefix = 0 ∷ 0 ∷ 0 ∷ 0 ∷ 0 ∷ 0 ∷ 0 ∷ 0 ∷ 0 ∷ 0 ∷ 255 ∷ 255 ∷ []

abbrev pub is_mapped : Bytes → Bool
is_mapped ip = (length ip == 16) && bytes_eq (take 12 ip) v4_prefix

-- `net.IP.To16`; nil, an empty slice, where the length is neither 4 nor 16.
abbrev pub to16 : Bytes → Bytes
to16 ip = if length ip == 4 then v4_prefix ++ ip else if length ip == 16 then ip else []

-- The network that the text of a network says: an IPv4 network in the form of 16 bytes is printed
-- like the one in the form of 4 bytes, and `ParseCIDR` returns the latter.
abbrev pub short_net : IpNet → IpNet
short_net n =
    if is_mapped n.ip
    then record { ip = drop 12 n.ip; mask = if length n.mask == 16 then drop 12 n.mask else n.mask }
    else n

-- The address that the text of an address says: `ResolveUDPAddr` returns an IPv4 address in the form
-- of 16 bytes.
abbrev pub long_addr : UdpAddr → UdpAddr
long_addr a = record a { ip = to16 a.ip }

-- An IP address of one of the two sizes, or none; and a 16-bit port.
abbrev pub IsUdpAddr : UdpAddr → Type 0
IsUdpAddr a =
    ((length a.ip ≡ 0) ⊎ (length a.ip ≡ 4) ⊎ (length a.ip ≡ 16))
    × All IsByte a.ip
    × (a.port < 2 ^ 16)

-- The text functions of package net. `IsNetwork` says that a network has an address and a mask of
-- one size, that the mask is a prefix, and that the address has no bit behind it; then its text is
-- in CIDR form. What `ParseCIDR` returns is such a network, and so is one address with a full mask.
-- The text of a network, and that of an address without a zone, is one short line, and reads back as
-- the same network or address in the form that the parser prefers.
pub record AddrText : Type 1 where
  pub parse_cidr : Bytes → Result IpNet
  pub print_net : IpNet → Bytes
  pub resolve_udp_addr : Bytes → Result UdpAddr
  pub print_udp_addr : UdpAddr → Bytes
  pub IsNetwork : IpNet → Type 0
  pub parse_cidr-IsNetwork : (s : Bytes) (n : IpNet) → parse_cidr s ≡ ok n → IsNetwork n
  pub single-IsNetwork :
      (ip : Bytes)
      → (length ip ≡ 4) ⊎ (length ip ≡ 16)
      → All IsByte ip
      → IsNetwork (record { ip = to16 ip; mask = repeat 16 255 })
  pub print_net-Lacks : (n : IpNet) → IsNetwork n → Lacks b'\n' (print_net n)
  pub length-print_net : (n : IpNet) → IsNetwork n → length (print_net n) ≤ 100
  pub parse_cidr-print_net : (n : IpNet) → IsNetwork n → parse_cidr (print_net n) ≡ ok (short_net n)
  pub resolve-IsUdpAddr : (s : Bytes) (a : UdpAddr) → resolve_udp_addr s ≡ ok a → IsUdpAddr a
  pub print_udp_addr-Lacks :
      (a : UdpAddr) → IsUdpAddr a → a.zone ≡ [] → Lacks b'\n' (print_udp_addr a)
  pub length-print_udp_addr :
      (a : UdpAddr) → IsUdpAddr a → a.zone ≡ [] → length (print_udp_addr a) ≤ 100
  pub resolve-print_udp_addr :
      (a : UdpAddr)
      → IsUdpAddr a
      → a.zone ≡ []
      → resolve_udp_addr (print_udp_addr a) ≡ ok (long_addr a)
