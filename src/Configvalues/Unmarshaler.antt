-- ===== src/Configvalues/Unmarshaler.antt =====
-- pkg/configvalues/unmarshaller.go: `CaddyTextUnmarshaler` keeps a value with the text it came
-- from.
use point_c.Base.{
  ◌≡◌, refl, Bool, true, false, Option, none, some, Bytes, GoError, if◌then◌else◌, Bool-cases, inl,
  inr,
}
use point_c.Configvalues.Values.{ValueType}

pub record CaddyTextUnmarshaler (T : Type 0) : Type 0 where
  pub value : T
  pub original : Bytes

-- The functions of other packages that the methods call: Caddy's `Replacer.ReplaceAll` with an
-- empty default, gjson's `ValidBytes`, `strconv.Quote`, and `json.Unmarshal` into a string, which
-- has a result only for a JSON string or null.
pub record TextTools : Type 0 where
  pub replace_all : Bytes → Bytes
  pub valid_bytes : Bytes → Bool
  pub quote : Bytes → Bytes
  pub unmarshal_string : Bytes → Option Bytes

module _ (tools : TextTools) {T V : Type 0} (v : ValueType T V) where
  -- `UnmarshalText`: the text is stored as it was given, and parsed with its placeholders replaced.
  unfoldable pub unmarshal_text :
      CaddyTextUnmarshaler T → Bytes → CaddyTextUnmarshaler T × Option GoError
  unmarshal_text c text =
      let (t, e) = v.unmarshal_text c.value (tools.replace_all text) in
      (record { value = t; original = text }, e)

  -- `MarshalText`.
  unfoldable pub marshal_text : CaddyTextUnmarshaler T → Bytes
  marshal_text c = c.original

  -- `MarshalJSON`.
  unfoldable pub marshal_json : CaddyTextUnmarshaler T → Bytes
  unfolding marshal_text
  marshal_json c =
      let text = marshal_text c in if tools.valid_bytes text then text else tools.quote text

  -- `UnmarshalJSON`.
  unfoldable pub unmarshal_json :
      CaddyTextUnmarshaler T → Bytes → CaddyTextUnmarshaler T × Option GoError
  unfolding unmarshal_text
  unmarshal_json c text = elim (tools.unmarshal_string text) [
    | some s ↦ unmarshal_text c s
    | none ↦ unmarshal_text c text
  ]

  -- `Value`.
  unfoldable pub get_value : CaddyTextUnmarshaler T → V
  get_value c = v.value c.value

  -- The text is kept whatever becomes of the value: marshalling gives it back, also after an error.
  pub marshal_text-unmarshal_text :
      (c : CaddyTextUnmarshaler T) (text : Bytes) → marshal_text (unmarshal_text c text).0 ≡ text
  unfolding marshal_text unmarshal_text
  marshal_text-unmarshal_text c text = refl

  marshal_json_valid :
      (c : CaddyTextUnmarshaler T)
      → tools.valid_bytes c.original ≡ true
      → marshal_json c ≡ c.original
  unfolding marshal_json
  marshal_json_valid c h = rw h

  marshal_json_invalid :
      (c : CaddyTextUnmarshaler T)
      → tools.valid_bytes c.original ≡ false
      → marshal_json c ≡ tools.quote c.original
  unfolding marshal_json
  marshal_json_invalid c h = rw h

  unmarshal_json_string :
      (d : CaddyTextUnmarshaler T) (text inner : Bytes)
      → tools.unmarshal_string text ≡ some inner
      → unmarshal_json d text ≡ unmarshal_text d inner
  unfolding unmarshal_json
  unmarshal_json_string d text inner h = rw (h, unmarshal_json)

  unmarshal_json_other :
      (d : CaddyTextUnmarshaler T) (text : Bytes)
      → tools.unmarshal_string text ≡ none
      → unmarshal_json d text ≡ unmarshal_text d text
  unfolding unmarshal_json
  unmarshal_json_other d text h = rw (h, unmarshal_json)

  -- A value that is written as JSON and read into another variable is parsed from the same text, if
  -- the text is no JSON string and not null, and a quoted text is unquoted to itself.
  pub unmarshal_json-marshal_json :
      (c d : CaddyTextUnmarshaler T)
      → (tools.valid_bytes c.original ≡ true → tools.unmarshal_string c.original ≡ none)
      → tools.unmarshal_string (tools.quote c.original) ≡ some c.original
      → unmarshal_json d (marshal_json c) ≡ unmarshal_text d c.original
  unmarshal_json-marshal_json c d plain quoted = elim (Bool-cases (tools.valid_bytes c.original)) [
    | inl valid ↦ rw (marshal_json_valid c valid) (unmarshal_json_other d _ (plain valid))
    | inr invalid ↦ rw (marshal_json_invalid c invalid) (unmarshal_json_string d _ _ quoted)
  ]

  -- A text that is itself a JSON string comes back as the text inside its quotes: the text changes.
  pub unmarshal_json-marshal_json_string :
      (c d : CaddyTextUnmarshaler T) (inner : Bytes)
      → tools.valid_bytes c.original ≡ true
      → tools.unmarshal_string c.original ≡ some inner
      → unmarshal_json d (marshal_json c) ≡ unmarshal_text d inner
  unmarshal_json-marshal_json_string c d inner valid string =
      rw (marshal_json_valid c valid) (unmarshal_json_string d _ inner string)
