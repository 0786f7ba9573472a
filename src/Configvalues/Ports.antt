-- ===== src/Configvalues/Ports.antt =====
-- pkg/configvalues/types.go, `Port`: reading a port that is written in decimal.
use point_c.Base.{ℕ, ◌^◌, ◌<◌, ◌≡◌, none, [], ◌∷◌, Bytes, Lacks, All, arith}
use point_c.Strconv.{format_uint}
use point_c.Strconv.Digits.{IsDigit}
use point_c.Strconv.RoundTrip.{parse_uint-format_uint, format_uint-IsDigit}
use point_c.Configvalues.Values.{value_unsigned}
use point_c.Configvalues.Unmarshaler.{CaddyTextUnmarshaler, TextTools, unmarshal_text}

pub IsDigit-Lacks : (b : ℕ) (s : Bytes) → b'9' < b → All IsDigit s → Lacks b s
IsDigit-Lacks b [] lt h = tt
IsDigit-Lacks b (c ∷ s) lt ((lo, hi), h) = (omega arith, IsDigit-Lacks b s lt h)

-- A replacer leaves a text without a brace as it is.
abbrev pub KeepsPlain : TextTools → Type 0
KeepsPlain tools = (s : Bytes) → Lacks b'{' s → tools.replace_all s ≡ s

pub port_read :
    (tools : TextTools)
    → KeepsPlain tools
    → (c : CaddyTextUnmarshaler ℕ) (n : ℕ) → n < 2 ^ 16
    → unmarshal_text tools (value_unsigned 2) c (format_uint n)
      ≡ (record { value = n; original = format_uint n }, none)
unfolding unmarshal_text
port_read tools plain c n h = rw (
  plain (format_uint n) (IsDigit-Lacks b'{' _ (omega arith) (format_uint-IsDigit n)),
  parse_uint-format_uint 16 n (omega arith) (omega arith),
)
