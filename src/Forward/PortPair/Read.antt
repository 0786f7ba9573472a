-- ===== src/Forward/PortPair/Read.antt =====
-- `PortPair.UnmarshalText` against the form that its comment gives.
use point_c.Base.{
  ℕ, ◌^◌, ◌<◌, ◌≡◌, Bool, true, false, Option, none, some, [], ◌∷◌, ◌++◌, Bytes, codes, ok, cut,
  cut-append, cut-Lacks, Lacks, All, All-append, arith, append_assoc, append-nil, ◌∙◌,
}
use point_c.Strconv.{format_uint}
use point_c.Strconv.Digits.{IsDigit}
use point_c.Strconv.RoundTrip.{format_uint-IsDigit}
use point_c.Configvalues.Unmarshaler.{CaddyTextUnmarshaler, unmarshal_text}
use point_c.Configvalues.Ports.{IsDigit-Lacks, port_read}
use point_c.Forward.PortPair.{
  PortPair, PairTools, zero_text, unmarshal_pair, unmarshal_rest, unmarshal_tail, with_host,
  unmarshal_ports, checked_proto, unmarshal_proto, unmarshal_host,
}

-- The protocol of the text, if it names one.
pub data Proto : Type 0 where
  unspecified tcp udp : Proto

abbrev pub proto_text : Proto → Bytes
proto_text unspecified = []
proto_text tcp = codes "/tcp"
proto_text udp = codes "/udp"

-- The host in front of the ports: its text, and the address that the text stands for.
abbrev pub host_text : Option (Bytes × Bytes) → Bytes
host_text none = []
host_text (some (h, ip)) = h ++ b':' ∷ []

abbrev host_ip : Option (Bytes × Bytes) → Option Bytes
host_ip none = none
host_ip (some (h, ip)) = some ip

abbrev names_udp : Proto → Bool
names_udp unspecified = false
names_udp tcp = false
names_udp udp = true

abbrev pub pair_text : Option (Bytes × Bytes) → ℕ → ℕ → Proto → Bytes
pair_text host src dst proto =
    host_text host ++ (format_uint src ++ b':' ∷ (format_uint dst ++ proto_text proto))

IsDigit-Lacks_slash : (s : Bytes) → All IsDigit s → Lacks b'/' s
IsDigit-Lacks_slash [] h = tt
IsDigit-Lacks_slash (c ∷ s) ((lo, hi), h) = (omega arith, IsDigit-Lacks_slash s h)

-- The protocol that `unmarshal_proto` stores.
abbrev pub stored_proto : CaddyTextUnmarshaler Bytes → Proto → CaddyTextUnmarshaler Bytes
stored_proto old unspecified = old
stored_proto old tcp = record { value = codes "tcp"; original = codes "tcp" }
stored_proto old udp = record { value = codes "udp"; original = codes "udp" }

abbrev pub stored_port : ℕ → CaddyTextUnmarshaler ℕ
stored_port n = record { value = n; original = format_uint n }

abbrev stored_tail : PortPair → ℕ → ℕ → Proto → PortPair
stored_tail pp src dst proto = record pp {
  src = stored_port src;
  dst = stored_port dst;
  proto = stored_proto pp.proto proto;
}

abbrev pub stored_host : Option (Bytes × Bytes) → Option (CaddyTextUnmarshaler Bytes)
stored_host none = none
stored_host (some (h, ip)) = some (record { value = ip; original = h })

module _ (pt : PairTools) (plain : (s : Bytes) → Lacks b'{' s → pt.tools.replace_all s ≡ s) where
  ports_read :
      (pp : PortPair) (src dst : ℕ)
      → src < 2 ^ 16
      → dst < 2 ^ 16
      → unmarshal_ports pt pp (format_uint src) (format_uint dst)
        ≡ (record pp { src = stored_port src; dst = stored_port dst }, none)
  unfolding unmarshal_ports
  ports_read pp src dst hs hd =
      rw (port_read pt.tools plain pp.src src hs, port_read pt.tools plain pp.dst dst hd)

  tcp_read :
      (pp : PortPair) (src dst : Bytes)
      → checked_proto pt pp src dst (unmarshal_proto pt pp.proto (codes "tcp"))
        ≡ unmarshal_ports pt (record pp { proto = stored_proto pp.proto tcp }) src dst
  unfolding checked_proto unmarshal_text
  tcp_read pp src dst = rw (plain (codes "tcp") (omega arith))

  udp_read :
      (pp : PortPair) (src dst : Bytes)
      → checked_proto pt pp src dst (unmarshal_proto pt pp.proto (codes "udp"))
        ≡ unmarshal_ports pt (record pp { proto = stored_proto pp.proto udp }) src dst
  unfolding checked_proto unmarshal_text
  udp_read pp src dst = rw (plain (codes "udp") (omega arith))

  dst_cut :
      (n : ℕ) (proto : Bytes)
      → cut b'/' (format_uint n ++ b'/' ∷ proto) ≡ some (format_uint n, proto)
  dst_cut n proto =
      cut-append b'/' (format_uint n) proto (IsDigit-Lacks_slash _ (format_uint-IsDigit n))

  tail_uncut :
      (pp : PortPair) (src dst : Bytes)
      → cut b'/' dst ≡ none
      → unmarshal_tail pt pp src dst ≡ unmarshal_ports pt pp src dst
  unfolding unmarshal_tail
  tail_uncut pp src dst e = rw (e, unmarshal_tail)

  tail_cut :
      (pp : PortPair) (src dst d proto : Bytes)
      → cut b'/' dst ≡ some (d, proto)
      → unmarshal_tail pt pp src dst ≡ checked_proto pt pp src d (unmarshal_proto pt pp.proto proto)
  unfolding unmarshal_tail
  tail_cut pp src dst d proto e = rw (e, unmarshal_tail)

  tail_read :
      (pp : PortPair) (src dst : ℕ) (proto : Proto)
      → src < 2 ^ 16
      → dst < 2 ^ 16
      → unmarshal_tail pt pp (format_uint src) (format_uint dst ++ proto_text proto)
        ≡ (stored_tail pp src dst proto, none)
  tail_read pp src dst unspecified hs hd = rw (append-nil (format_uint dst)) (
      tail_uncut pp _ _ (cut-Lacks b'/' _ (IsDigit-Lacks_slash _ (format_uint-IsDigit dst)))
      ∙ ports_read pp src dst hs hd)
  tail_read pp src dst tcp hs hd =
      tail_cut pp _ _ _ _ (dst_cut dst (codes "tcp"))
      ∙ tcp_read pp _ _
      ∙ ports_read (record pp { proto = stored_proto pp.proto tcp }) src dst hs hd
  tail_read pp src dst udp hs hd =
      tail_cut pp _ _ _ _ (dst_cut dst (codes "udp"))
      ∙ udp_read pp _ _
      ∙ ports_read (record pp { proto = stored_proto pp.proto udp }) src dst hs hd

  tail_Lacks_colon : (dst : ℕ) (proto : Proto) → Lacks b':' (format_uint dst ++ proto_text proto)
  tail_Lacks_colon dst proto =
      All-append _ (format_uint dst) (proto_text proto)
        (IsDigit-Lacks b':' _ (omega arith) (format_uint-IsDigit dst)) (proto_Lacks proto)
    where
      proto_Lacks : (p : Proto) → Lacks b':' (proto_text p)
      proto_Lacks unspecified = tt
      proto_Lacks tcp = omega arith
      proto_Lacks udp = omega arith

  rest_alone :
      (pp : PortPair) (first rest : Bytes)
      → cut b':' rest ≡ none
      → unmarshal_rest pt pp first rest ≡ unmarshal_tail pt (record pp { host = none }) first rest
  unfolding unmarshal_rest
  rest_alone pp first rest e = rw (e, unmarshal_rest)

  rest_hosted :
      (pp : PortPair) (first rest src dst : Bytes)
      → cut b':' rest ≡ some (src, dst)
      → unmarshal_rest pt pp first rest
        ≡ with_host pt pp src dst (unmarshal_host pt zero_text first)
  unfolding unmarshal_rest
  rest_hosted pp first rest src dst e = rw (e, unmarshal_rest)

  pair_cut :
      (pp : PortPair) (b first rest : Bytes)
      → cut b':' b ≡ some (first, rest)
      → unmarshal_pair pt pp b ≡ unmarshal_rest pt pp first rest
  unfolding unmarshal_pair
  pair_cut pp b first rest e = rw (e, unmarshal_pair)

  host_read :
      (pp : PortPair) (h ip src dst : Bytes)
      → Lacks b'{' h
      → pt.parse_ip h ≡ ok ip
      → with_host pt pp src dst (unmarshal_host pt zero_text h)
        ≡ unmarshal_tail pt (record pp { host = stored_host (some (h, ip)) }) src dst
  unfolding with_host unmarshal_text
  host_read pp h ip src dst l e = rw (plain h l, e)

  -- A host text that the pair's form allows, with the address that package net reads in it.
  abbrev pub IsHost : Option (Bytes × Bytes) → Type 0
  IsHost none = Unit {0}
  IsHost (some (h, ip)) = Lacks b':' h × Lacks b'{' h × (pt.parse_ip h ≡ ok ip)

  -- Where the replacer leaves a text without a brace as it is, every text
  -- [<host>:]<src>:<dst>[/<tcp|udp>] with ports below 65536, and with a host that has no colon and
  -- no brace and parses as an address, is accepted, and each part is stored with its text; the host
  -- is cleared where the text names none, and the protocol is left as it was where the text names
  -- none.
  pub unmarshal_pair-pair_text :
      (pp : PortPair) (host : Option (Bytes × Bytes)) (src dst : ℕ) (proto : Proto)
      → IsHost host
      → src < 2 ^ 16
      → dst < 2 ^ 16
      → unmarshal_pair pt pp (pair_text host src dst proto) ≡ (
        record pp {
          host = stored_host host;
          src = stored_port src;
          dst = stored_port dst;
          proto = stored_proto pp.proto proto;
        },
        none,
      )
  unmarshal_pair-pair_text pp none src dst proto _ hs hd =
      pair_cut pp _ _ _
        (cut-append b':' _ _ (IsDigit-Lacks b':' _ (omega arith) (format_uint-IsDigit src)))
      ∙ rest_alone pp _ _ (cut-Lacks b':' _ (tail_Lacks_colon dst proto))
      ∙ tail_read (record pp { host = none }) src dst proto hs hd
  unmarshal_pair-pair_text pp (some (h, ip)) src dst proto (colon, brace, parsed) hs hd =
      rw (append_assoc h) (
        pair_cut pp _ h _ (cut-append b':' h _ colon)
        ∙ rest_hosted pp h _ _ _
            (cut-append b':' _ _ (IsDigit-Lacks b':' _ (omega arith) (format_uint-IsDigit src)))
        ∙ host_read pp h ip _ _ brace parsed
        ∙ tail_read (record pp { host = stored_host (some (h, ip)) }) src dst proto hs hd)
