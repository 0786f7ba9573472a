-- ===== src/Forward/PortPair.antt =====
-- forward.go, `PortPair`: the text [<host>:]<src>:<dst>[/<tcp|udp>].
pub mod Read
use point_c.Base.{
  ℕ, ◌≡◌, refl, Bool, true, false, ◌||◌, Option, none, some, List, [], ◌∷◌, Bytes, codes, GoError,
  new, errorf, text, Result, ok, err, panic, bytes_eq, if◌then◌else◌, cut, join,
}
use point_c.Configvalues.Values.{ValueType, value_unsigned, value_string, value_ip}
use point_c.Configvalues.Unmarshaler.{CaddyTextUnmarshaler, TextTools, unmarshal_text, get_value}

-- The text functions that the parts of a pair are parsed with: Caddy's replacer, and
-- `net.IP.UnmarshalText`.
pub record PairTools : Type 0 where
  pub tools : TextTools
  pub parse_ip : Bytes → Result Bytes

pub record PortPair : Type 0 where
  pub src : CaddyTextUnmarshaler ℕ
  pub dst : CaddyTextUnmarshaler ℕ
  pub proto : CaddyTextUnmarshaler Bytes
  pub host : Option (CaddyTextUnmarshaler Bytes)

-- `*new(PortPair)`, and the zero value of its parts.
abbrev pub zero_port : CaddyTextUnmarshaler ℕ
zero_port = record { value = 0; original = [] }

abbrev pub zero_text : CaddyTextUnmarshaler Bytes
zero_text = record { value = []; original = [] }

abbrev pub zero_pair : PortPair
zero_pair = record { src = zero_port; dst = zero_port; proto = zero_text; host = none }

-- configvalues.Port is an unsigned number of two bytes.
abbrev pub port_size : ℕ
port_size = 2

-- `Src`, `Dst`, `IsUDP`, `Host`.
unfoldable pub get_src : PortPair → ℕ
unfolding get_value
get_src pp = pp.src.value

unfoldable pub get_dst : PortPair → ℕ
get_dst pp = pp.dst.value

unfoldable pub is_udp : PortPair → Bool
is_udp pp = bytes_eq pp.proto.value (codes "udp")

unfoldable pub get_host : PortPair → Option Bytes
get_host pp = elim pp.host [ none ↦ none | some h ↦ some h.value ]

module _ (pt : PairTools) where
  -- `UnmarshalText` of a port, of a protocol and of a host.
  abbrev pub unmarshal_port :
      CaddyTextUnmarshaler ℕ → Bytes → CaddyTextUnmarshaler ℕ × Option GoError
  unmarshal_port = unmarshal_text pt.tools (value_unsigned port_size)

  abbrev pub unmarshal_proto :
      CaddyTextUnmarshaler Bytes → Bytes → CaddyTextUnmarshaler Bytes × Option GoError
  unmarshal_proto = unmarshal_text pt.tools value_string

  abbrev pub unmarshal_host :
      CaddyTextUnmarshaler Bytes → Bytes → CaddyTextUnmarshaler Bytes × Option GoError
  unmarshal_host = unmarshal_text pt.tools (value_ip pt.parse_ip)

  -- The last step: both ports are parsed, and their errors joined.
  unmarshal_ports : PortPair → Bytes → Bytes → PortPair × Option GoError
  unmarshal_ports pp src dst =
      let (s, e) = unmarshal_port pp.src src in
      let (d, e') = unmarshal_port pp.dst dst in (record pp { src = s; dst = d }, join e e')

  -- The test of the protocol behind a `/`.
  checked_proto :
      PortPair
      → Bytes
      → Bytes
      → CaddyTextUnmarshaler Bytes × Option GoError
      → PortPair × Option GoError
  checked_proto pp src dst (p, some e) = (record pp { proto = p }, some e)
  checked_proto pp src dst (p, none) =
      if bytes_eq p.value (codes "tcp") || bytes_eq p.value (codes "udp")
      then unmarshal_ports (record pp { proto = p }) src dst
      else (record pp { proto = p }, some (errorf "unrecognized protocol %q" (text p.value ∷ [])))

  -- From the cut at the `/` on.
  unmarshal_tail : PortPair → Bytes → Bytes → PortPair × Option GoError
  unfolding unmarshal_ports checked_proto
  unmarshal_tail pp src dst = elim (cut b'/' dst) [
    | none ↦ unmarshal_ports pp src dst
    | some (d, proto) ↦ checked_proto pp src d (unmarshal_proto pp.proto proto)
  ]

  -- The host, parsed into a new value, in front of the rest.
  with_host :
      PortPair
      → Bytes
      → Bytes
      → CaddyTextUnmarshaler Bytes × Option GoError
      → PortPair × Option GoError
  unfolding unmarshal_tail
  with_host pp src dst (h, some e) = (record pp { host = some h }, some e)
  with_host pp src dst (h, none) = unmarshal_tail (record pp { host = some h }) src dst

  -- From the second cut at a `:` on, with the text before the first.
  unmarshal_rest : PortPair → Bytes → Bytes → PortPair × Option GoError
  unfolding unmarshal_tail with_host
  unmarshal_rest pp first rest = elim (cut b':' rest) [
    | some (src, dst) ↦ with_host pp src dst (unmarshal_host zero_text first)
    | none ↦ unmarshal_tail (record pp { host = none }) first rest
  ]

  -- `PortPair.UnmarshalText`.
  unfoldable pub unmarshal_pair : PortPair → Bytes → PortPair × Option GoError
  unfolding unmarshal_rest unmarshal_text
  unmarshal_pair pp b = elim (cut b':' b) [
    | none ↦ (pp, some (new "not a port:port pair"))
    | some (first, rest) ↦ unmarshal_rest pp first rest
  ]
