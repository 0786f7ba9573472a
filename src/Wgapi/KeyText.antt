-- ===== src/Wgapi/KeyText.antt =====
-- pkg/wg/wgapi/internal/value/values.go, `Key.MarshalText` and `Key.UnmarshalText`.
use point_c.Base.{◌≡◌, Option, none, Bytes, GoError, Result, ok, length}
use point_c.Configvalues.Values.{store}

-- `wgtypes.ParseKey` and `wgtypes.Key.String`: every key of 32 bytes is read from the text it is
-- printed as.
pub record KeyTools : Type 0 where
  pub parse_key : Bytes → Result Bytes
  pub key_string : Bytes → Bytes
  pub parse_key-key_string : (k : Bytes) → length k ≡ 32 → parse_key (key_string k) ≡ ok k

module _ (tools : KeyTools) where
  -- `MarshalText`.
  abbrev pub key_marshal_text : Bytes → Bytes
  key_marshal_text key = tools.key_string key

  -- `UnmarshalText`: the key is kept where the text is none.
  abbrev pub key_unmarshal_text : Bytes → Bytes → Bytes × Option GoError
  key_unmarshal_text key text = store key (tools.parse_key text)

  -- A key is read back from its text, into whatever key there was.
  pub key_unmarshal_text-key_marshal_text :
      (old key : Bytes)
      → length key ≡ 32
      → key_unmarshal_text old (key_marshal_text key) ≡ (key, none)
  key_unmarshal_text-key_marshal_text old key h = rw (tools.parse_key-key_string key h)
