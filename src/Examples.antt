-- ===== src/Examples.antt =====
-- Concrete inputs, and the theorems at them.
mod Wire
mod Configs
mod Devices
mod Apps
mod Forwarding
mod Listeners
mod Logging
mod Goroutines
mod Tunnels
mod Networks
use mathlib.Core.Path.{subst}
use point_c.Base.{
  ℕ, zero, suc, ◌≤◌, ◌^◌, ◌≡◌, ◌==◌, ◌||◌, ◌∙◌, refl, sym, ap, ◌⊎◌, inl, inr, Bool, Bool-cases,
  ==_iff, if◌then◌else◌, true, false, [], ◌∷◌, ◌++◌, Bytes, codes, Result, ok, err, panic, new,
  ◌>>=◌, >>=-eq-ok, ok-injective, Lacks, All, All-append, Option, Option-cases, none, some, GoError,
  cut, cut-append, drop, length, length-append, arith,
}
use point_c.Strconv.{parse_uint, format_uint}
use point_c.Strconv.Digits.{parse_uint_sound}
use point_c.Strconv.RoundTrip.{parse_uint-format_uint, length-format_uint, format_uint-IsDigit}
use point_c.Hex.{
  IsByte, encode_to_string, decode, decode_sound, decode-encode_to_string, encode_to_string-Lacks,
  encode_to_string-Lacks_mark, length-encode_to_string,
}
use point_c.Wgapi.Addr.{
  IpNet, UdpAddr, AddrText, IsUdpAddr, is_mapped, short_net, long_addr, to16, repeat, v4_prefix,
}
use point_c.Wgapi.Typing.{format_uint_line}

-- A text form of networks and addresses: their bytes in hexadecimal, with a mark between the parts.
abbrev pub IsNet : IpNet → Type 0
IsNet n = (All IsByte n.ip × (length n.ip ≤ 16)) × All IsByte n.mask × (length n.mask ≤ 16)

abbrev pub print_net : IpNet → Bytes
print_net n = encode_to_string n.ip ++ b'/' ∷ encode_to_string n.mask

parse_parts : Option (Bytes × Bytes) → Result IpNet
parse_parts none = err (new "invalid CIDR address")
parse_parts (some (a, b)) = do
  ip ← decode 16 a
  mask ← decode 16 b
  ok (short_net (record { ip = ip; mask = mask }))

unfoldable pub parse_cidr : Bytes → Result IpNet
unfolding parse_parts
parse_cidr s = parse_parts (cut b'/' s)

All-drop :
    (n : ℕ) (xs : Bytes) → All IsByte xs → All IsByte (drop n xs) × (length (drop n xs) ≤ length xs)
All-drop zero xs h = (h, omega arith)
All-drop (suc n) [] h = (tt, omega arith)
All-drop (suc n) (x ∷ xs) (h, hs) = let (a, l) = All-drop n xs hs in (a, omega arith)

short_net-IsNet : (n : IpNet) → IsNet n → IsNet (short_net n)
short_net-IsNet n ((a, l), b, m) = elim (Bool-cases (is_mapped n.ip)) [
  | inr e ↦ simp e ((a, l), b, m)
  | inl e ↦
      let (a', l') = All-drop 12 n.ip a in
      let (b', m') = All-drop 12 n.mask b in
      elim (Bool-cases (length n.mask == 16)) [
        | inl f ↦ simp (e, f) ((a', omega arith), b', omega arith)
        | inr f ↦ simp (e, f) ((a', omega arith), b, m)
      ]
]

pub print_net-read : (n : IpNet) → IsNet n → parse_cidr (print_net n) ≡ ok (short_net n)
unfolding parse_cidr parse_parts
print_net-read n ((a, l), b, m) =
    rw
      (
        cut-append b'/' (encode_to_string n.ip) (encode_to_string n.mask)
            (encode_to_string-Lacks_mark b'/' n.ip (omega arith)),
        decode-encode_to_string n.ip 16 a l,
        decode-encode_to_string n.mask 16 b m,
      )
      refl

parse_parts-IsNet : (o : Option (Bytes × Bytes)) (n : IpNet) → parse_parts o ≡ ok n → IsNet n
unfolding parse_parts
parse_parts-IsNet none n h = cc
parse_parts-IsNet (some (a, b)) n h =
    let (ip, e, k) =
      >>=-eq-ok (decode 16 a)
        (λ ip. decode 16 b >>= (λ mask. ok (short_net (record { ip = ip; mask = mask })))) {v = n}
        h in
    let (mask, f, r) =
      >>=-eq-ok (decode 16 b) (λ mask. ok (short_net (record { ip = ip; mask = mask }))) {v = n}
        k in
    let (m, l) = decode_sound 16 b mask f in
    subst IsNet (ok-injective r)
      (short_net-IsNet (record { ip = ip; mask = mask }) (decode_sound 16 a ip e, m, l))

pub parse_cidr-IsNet : (s : Bytes) (n : IpNet) → parse_cidr s ≡ ok n → IsNet n
unfolding parse_cidr
parse_cidr-IsNet s n h = parse_parts-IsNet (cut b'/' s) n h

pub print_net-line : (n : IpNet) → IsNet n → Lacks b'\n' (print_net n)
print_net-line n v =
    All-append _ (encode_to_string n.ip) (b'/' ∷ encode_to_string n.mask)
      (encode_to_string-Lacks n.ip).0 (omega arith, (encode_to_string-Lacks n.mask).0)

pub length-print_net : (n : IpNet) → IsNet n → length (print_net n) ≤ 100
length-print_net n ((a, l), b, m) = omega (
  arith,
  l,
  m,
  length-append (encode_to_string n.ip) (b'/' ∷ encode_to_string n.mask),
  length-encode_to_string n.ip,
  length-encode_to_string n.mask,
)

to16_lem :
    (ip : Bytes)
    → (length ip ≡ 0) ⊎ (length ip ≡ 4) ⊎ (length ip ≡ 16)
    → All IsByte ip
    → All IsByte (to16 ip) × ((length (to16 ip) ≡ 0) ⊎ (length (to16 ip) ≡ 16))
to16_lem ip (inl e) h = rw e (tt, inl refl)
to16_lem ip (inr (inl e)) h =
    rw e (All-append IsByte v4_prefix ip (omega arith) h, inr (omega (arith, e)))
to16_lem ip (inr (inr e)) h = rw e (h, inr e)

pub single-IsNet :
    (ip : Bytes)
    → (length ip ≡ 4) ⊎ (length ip ≡ 16)
    → All IsByte ip
    → IsNet (record { ip = to16 ip; mask = repeat 16 255 })
single-IsNet ip size h =
    let (b, sizes) = to16_lem ip (inr size) h in ((b, at_most sizes), omega arith, omega arith)
  where
    at_most : (length (to16 ip) ≡ 0) ⊎ (length (to16 ip) ≡ 16) → length (to16 ip) ≤ 16
    at_most (inl e) = omega (arith, e)
    at_most (inr e) = omega (arith, e)

abbrev pub print_udp_addr : UdpAddr → Bytes
print_udp_addr a = encode_to_string (to16 a.ip) ++ b'/' ∷ format_uint a.port

-- Only the two sizes of an IP address, or none, are accepted.
sized_addr : Bytes → ℕ → Result UdpAddr
sized_addr ip port =
    if length ip == 0 || length ip == 16
    then ok (record { ip = ip; port = port; zone = [] })
    else err (new "invalid address")

resolve_parts : Option (Bytes × Bytes) → Result UdpAddr
unfolding sized_addr
resolve_parts none = err (new "missing port in address")
resolve_parts (some (a, b)) = do ip ← decode 16 a; port ← parse_uint 16 b; sized_addr ip port

unfoldable pub resolve_udp_addr : Bytes → Result UdpAddr
unfolding resolve_parts
resolve_udp_addr s = resolve_parts (cut b'/' s)

sized_addr_lem :
    (ip : Bytes) (port : ℕ)
    → (length ip ≡ 0) ⊎ (length ip ≡ 16)
    → sized_addr ip port ≡ ok (record { ip = ip; port = port; zone = [] })
unfolding sized_addr
sized_addr_lem ip port (inl e) = rw e
sized_addr_lem ip port (inr e) = rw e

sized_addr_sound :
    (ip : Bytes) (port : ℕ) (a : UdpAddr)
    → sized_addr ip port ≡ ok a
    → ((length ip ≡ 0) ⊎ (length ip ≡ 16)) × (record { ip = ip; port = port; zone = [] } ≡ a)
unfolding sized_addr
sized_addr_sound ip port a h = ground arith

resolve_parts-IsUdpAddr :
    (o : Option (Bytes × Bytes)) (a : UdpAddr) → resolve_parts o ≡ ok a → IsUdpAddr a
unfolding resolve_parts
resolve_parts-IsUdpAddr none a h = cc
resolve_parts-IsUdpAddr (some (s, t)) a h =
    let (ip, e, k) =
      >>=-eq-ok (decode 16 s) (λ ip. parse_uint 16 t >>= (λ n. sized_addr ip n)) {v = a} h in
    let (n, f, r) = >>=-eq-ok (parse_uint 16 t) (sized_addr ip) {v = a} k in
    let (size, same) = sized_addr_sound ip n a r in
    let bound = parse_uint_sound 16 t n (omega arith) f in
    subst IsUdpAddr same (wide ip size, (decode_sound 16 s ip e).0, omega (arith, bound.2))
  where
    wide :
        (ip : Bytes)
        → (length ip ≡ 0) ⊎ (length ip ≡ 16)
        → (length ip ≡ 0) ⊎ (length ip ≡ 4) ⊎ (length ip ≡ 16)
    wide ip (inl e) = inl e
    wide ip (inr e) = inr (inr e)

pub resolve-IsUdpAddr : (s : Bytes) (a : UdpAddr) → resolve_udp_addr s ≡ ok a → IsUdpAddr a
unfolding resolve_udp_addr
resolve-IsUdpAddr s a h = resolve_parts-IsUdpAddr (cut b'/' s) a h

module _ (a : UdpAddr) (v : IsUdpAddr a) (z : a.zone ≡ []) where
  at_most_16 : length (to16 a.ip) ≤ 16
  at_most_16 = elim ((to16_lem a.ip v.0 v.1).1) [
    | inl e ↦ omega (arith, e)
    | inr e ↦ omega (arith, e)
  ]

  pub print_udp_addr-read : resolve_udp_addr (print_udp_addr a) ≡ ok (long_addr a)
  unfolding resolve_udp_addr resolve_parts
  print_udp_addr-read =
      rw
        (
          cut-append b'/' (encode_to_string (to16 a.ip)) (format_uint a.port)
              (encode_to_string-Lacks_mark b'/' (to16 a.ip) (omega arith)),
          decode-encode_to_string (to16 a.ip) 16 (to16_lem a.ip v.0 v.1).0 at_most_16,
          parse_uint-format_uint 16 a.port (omega arith) (omega (arith, v.2)),
          sized_addr_lem (to16 a.ip) a.port (to16_lem a.ip v.0 v.1).1,
          z,
        )
        refl

  pub print_udp_addr-line : Lacks b'\n' (print_udp_addr a)
  print_udp_addr-line =
      All-append _ (encode_to_string (to16 a.ip)) (b'/' ∷ format_uint a.port)
        (encode_to_string-Lacks (to16 a.ip)).0
        (omega arith, (format_uint_line a.port (omega (arith, v.2))).0)

  pub length-print_udp_addr : length (print_udp_addr a) ≤ 100
  length-print_udp_addr = omega (
    arith,
    at_most_16,
    length-append (encode_to_string (to16 a.ip)) (b'/' ∷ format_uint a.port),
    length-encode_to_string (to16 a.ip),
    length-format_uint a.port,
  )

abbrev pub plain_text : AddrText
plain_text = record {
  parse_cidr = parse_cidr;
  print_net = print_net;
  resolve_udp_addr = resolve_udp_addr;
  print_udp_addr = print_udp_addr;
  IsNetwork = IsNet;
  parse_cidr-IsNetwork = parse_cidr-IsNet;
  single-IsNetwork = single-IsNet;
  print_net-Lacks = print_net-line;
  length-print_net = length-print_net;
  parse_cidr-print_net = print_net-read;
  resolve-IsUdpAddr = resolve-IsUdpAddr;
  print_udp_addr-Lacks = print_udp_addr-line;
  length-print_udp_addr = length-print_udp_addr;
  resolve-print_udp_addr = print_udp_addr-read;
}
