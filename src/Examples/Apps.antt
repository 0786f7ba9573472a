-- ===== src/Examples/Apps.antt =====
-- The Caddy apps, at concrete inputs.
use point_c.Base.{
  ℕ, ◌≡◌, ◌↔◌, refl, [], ◌∷◌, ◌++◌, Bytes, codes, ok, some, none, false, arith, GoError, Option,
  List, Result, inl, lookup, bytes_eq,
}
use point_c.Strconv.{format_uint}
use point_c.Caddyfile.{Directive, Tokens, LoadModule}
use point_c.Configvalues.Values.{value_string}
use point_c.Configvalues.Unmarshaler
use point_c.Configvalues.Unmarshaler.{
  CaddyTextUnmarshaler, TextTools, unmarshal_text, unmarshal_json, marshal_json,
}
use point_c.Unmarshaler as Resuming
use point_c.Unmarshaler.{CaddyfileUnmarshaler, App, nothing, app, foreign, unmarshaler, and_then}
use point_c.Pointc.{Pointc, Networks, modules, provision, lookup_net, unmarshal_caddyfile}
use point_c.Pointc.Names
use point_c.Pointc.Names.{DistinctNames, all_entries, map_modules}
use point_c.Pointc.Append.{pointc_unmarshaler}
use point_c.Forward.PortPair.{PairTools, zero_pair, unmarshal_pair}
use point_c.Forward.PortPair.Read
use point_c.Forward.PortPair.Read.{tcp, pair_text, stored_host, stored_port, stored_proto}

-- A replacer with no placeholders, and quotes that nothing is escaped in.
abbrev unquoted : Bytes → Option Bytes
unquoted [] = none
unquoted (c ∷ s) = some s

abbrev tools : TextTools
tools = record {
  replace_all = λ s. s;
  valid_bytes = λ s. bytes_eq s (codes "\"a");
  quote = λ s. b'"' ∷ s;
  unmarshal_string = unquoted;
}

abbrev none_valid : TextTools
none_valid = record {
  replace_all = λ s. s;
  valid_bytes = λ s. false;
  quote = λ s. b'"' ∷ s;
  unmarshal_string = unquoted;
}

abbrev pair_tools : PairTools
pair_tools = record { tools = tools; parse_ip = λ s. ok s }

abbrev stored : Bytes → CaddyTextUnmarshaler Bytes
stored s = record { value = s; original = s }

json_read_back :
    unmarshal_json none_valid value_string
      (stored [])
      (marshal_json none_valid value_string (stored (codes "x")))
    ≡ unmarshal_text none_valid value_string (stored []) (codes "x")
json_read_back =
    Unmarshaler.unmarshal_json-marshal_json none_valid value_string (stored (codes "x")) (stored [])
      (λ h. ground arith) refl

unmarshal_pair-pair_text_example : unmarshal_pair pair_tools zero_pair (codes "h:80:8080/tcp") ≡ (
  record {
    host = stored_host (some (codes "h", codes "h"));
    src = stored_port 80;
    dst = stored_port 8080;
    proto = stored_proto (stored []) tcp;
  },
  none,
)
unfolding format_uint
unmarshal_pair-pair_text_example =
    Read.unmarshal_pair-pair_text pair_tools (λ s h. refl) zero_pair (some (codes "h", codes "h"))
      80 8080 tcp (omega arith, omega arith, refl) (omega arith) (omega arith)

abbrev empty : Pointc ℕ
empty = record { networks_raw = some (codes "{}" ∷ []); networks = []; net = [] }

abbrev declared : List (Networks ℕ)
declared = ((codes "a", 1) ∷ []) ∷ ((codes "b", 2) ∷ []) ∷ []

distinct : DistinctNames (all_entries declared)
unfolding lookup
distinct = (refl, (refl, tt))

lookup_net-provision_example :
    (wg' : Pointc ℕ) × (provision ℕ empty (ok (modules (map_modules declared))) ≡ ok (wg', none))
    × ((name : Bytes) → lookup_net ℕ wg' name ≡ lookup name (all_entries declared))
lookup_net-provision_example =
    Names.lookup_net-provision empty (codes "{}" ∷ []) declared refl distinct

provision_error-DistinctNames_example :
    (wg' : Pointc ℕ) × (e : Option GoError) × (provision ℕ empty
        (ok (modules (map_modules declared)))
      ≡ ok (wg', e))
    × ((e ≡ none) ↔ DistinctNames (all_entries declared))
provision_error-DistinctNames_example =
    Names.provision_error-DistinctNames empty (codes "{}" ∷ []) declared refl

abbrev load : LoadModule
load id l = inl id

abbrev directive : Bytes → Directive
directive head = record { args = []; block = record { head = head; args = [] } ∷ [] }

abbrev first_tokens : Tokens
first_tokens = directive (codes "x") ∷ []

abbrev second_tokens : Tokens
second_tokens = directive (codes "y") ∷ []

-- A JSON form that separates the texts by newlines, for at most one text.
abbrev to_json : Pointc ℕ → Bytes
to_json wg = elim wg.networks_raw [ none ↦ [] | some rs ↦ elim rs [ [] ↦ [] | r ∷ _ ↦ r ] ]

abbrev from_json : Bytes → Result (Pointc ℕ)
from_json s = ok (record { networks_raw = some (s ∷ []); networks = []; net = [] })

abbrev point_c_app : CaddyfileUnmarshaler (Pointc ℕ)
point_c_app = pointc_unmarshaler load to_json from_json

abbrev first_app : App
first_app = record { name = codes "point-c"; value = codes "point-c.net.x" }

first_run : unmarshaler point_c_app (codes "point-c") first_tokens nothing ≡ ok first_app
unfolding unmarshaler unmarshal_caddyfile
first_run = refl

back_run :
    from_json (to_json (unmarshal_caddyfile ℕ load point_c_app.zero_value first_tokens).0)
    ≡ ok (unmarshal_caddyfile ℕ load point_c_app.zero_value first_tokens).0
unfolding unmarshal_caddyfile
back_run = refl

unmarshaler-append_example :
    unmarshaler point_c_app (codes "point-c") second_tokens (app first_app)
    ≡ unmarshaler point_c_app (codes "point-c") (first_tokens ++ second_tokens) nothing
unmarshaler-append_example =
    Resuming.unmarshaler-append point_c_app (codes "point-c") first_tokens second_tokens first_app
      first_run back_run
