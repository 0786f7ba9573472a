-- ===== src/Configvalues/Values.antt =====
-- pkg/configvalues/values.go: the value types, each with `UnmarshalText` and `Value`.
use point_c.Base.{
  ℕ, ◌*◌, Bool, true, false, ◌||◌, Option, none, some, Bytes, codes, GoError, new, Result, ok, err,
  panic, bytes_eq, if◌then◌else◌,
}
use point_c.Strconv.{parse_uint}
use point_c.Wgapi.Addr.{AddrText, UdpAddr}

-- The interface `Value`: `UnmarshalText` returns the new value and the error.
pub record ValueType (T : Type 0) (V : Type 0) : Type 0 where
  pub unmarshal_text : T → Bytes → T × Option GoError
  pub value : T → V

-- Keep the old value if the parser fails, and store the new one if not.
abbrev pub store {ℓ} : {T : Type ℓ} → T → Result T → T × Option GoError
store old (ok t) = (t, none)
store old (err e) = (old, some e)
store old panic = (old, none)

-- strconv.ParseBool.
parse_bool : Bytes → Result Bool
parse_bool s =
    if bytes_eq s (codes "1")
      || bytes_eq s (codes "t")
      || bytes_eq s (codes "T")
      || bytes_eq s (codes "TRUE")
      || bytes_eq s (codes "true")
      || bytes_eq s (codes "True")
    then ok true
    else if bytes_eq s (codes "0")
        || bytes_eq s (codes "f")
        || bytes_eq s (codes "F")
        || bytes_eq s (codes "FALSE")
        || bytes_eq s (codes "false")
        || bytes_eq s (codes "False")
    then ok false
    else err (new "invalid syntax")

-- ValueBool.
unfoldable pub value_bool : ValueType Bool Bool
unfolding parse_bool
value_bool = record { unmarshal_text = λ b text. store b (parse_bool text); value = λ b. b }

-- ValueString.
abbrev pub value_string : ValueType Bytes Bytes
value_string = record { unmarshal_text = λ s text. (text, none); value = λ s. s }

-- ValueUnsigned of a type of `size` bytes.
abbrev pub value_unsigned : ℕ → ValueType ℕ ℕ
value_unsigned size = record {
  unmarshal_text = λ n text. store n (parse_uint (size * 8) text);
  value = λ n. n;
}

-- ValueUDPAddr.
abbrev pub value_udp_addr : AddrText → ValueType UdpAddr UdpAddr
value_udp_addr net = record {
  unmarshal_text = λ a text. store a (net.resolve_udp_addr text);
  value = λ a. a;
}

-- ValueIP; `net.IP.UnmarshalText` is given.
abbrev pub value_ip : (Bytes → Result Bytes) → ValueType Bytes Bytes
value_ip parse_ip = record {
  unmarshal_text = λ ip text. store ip (parse_ip text);
  value = λ ip. ip;
}
