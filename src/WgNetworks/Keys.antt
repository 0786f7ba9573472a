-- ===== src/WgNetworks/Keys.antt =====
-- module/networks/wg/wgkey.go: the keys of a configuration, in base64.
use point_c.Base.{◌≡◌, Bytes, length, Lacks}
use point_c.Configvalues.Values.{ValueType}
use point_c.Configvalues.Unmarshaler.{CaddyTextUnmarshaler, TextTools, unmarshal_text, get_value}
use point_c.Configvalues.Ports.{KeepsPlain}
use point_c.Wgapi.KeyText.{KeyTools, key_unmarshal_text, key_marshal_text}

-- `valueKey`, of each kind of key.
abbrev pub value_key : KeyTools → ValueType Bytes Bytes
value_key kt = record { unmarshal_text = key_unmarshal_text kt; value = λ k. k }

-- `PrivateKey`, `PublicKey` and `PresharedKey`.
abbrev pub ConfigKey : Type 0
ConfigKey = CaddyTextUnmarshaler Bytes

-- A key of a configuration is read from the text that it is printed as, if this has no brace, which
-- base64 has not.
pub get_value-key_marshal_text :
    (tools : TextTools) (kt : KeyTools) (c : ConfigKey) (key : Bytes)
    → KeepsPlain tools
    → length key ≡ 32
    → Lacks b'{' (key_marshal_text kt key)
    → get_value tools
        (value_key kt)
        (unmarshal_text tools (value_key kt) c (key_marshal_text kt key)).0
      ≡ key
unfolding get_value unmarshal_text
get_value-key_marshal_text tools kt c key plain h l =
    rw (plain (kt.key_string key) l, kt.parse_key-key_string key h)
