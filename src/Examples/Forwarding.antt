-- ===== src/Examples/Forwarding.antt =====
-- The forwards of forward.go, at concrete inputs.
use mathlib.Core.List.{reverse}
use point_c.Base.{
  ℕ, ◌≡◌, ◌↔◌, refl, [], ◌∷◌, ◌++◌, Bytes, codes, some, ok, none, false, GoError, Option, List, new,
  inl, inr, All, bytes_eq, ◌⊎◌, if◌then◌else◌,
}
use point_c.Configvalues.Unmarshaler.{get_value}
use point_c.Strconv.{format_uint}
use point_c.Forward.PortPair.{PairTools, zero_pair, is_udp, get_src, get_dst, get_host}
use point_c.Forward.App.{
  Forwarder, Forwards, AddrTools, StopFn, close_listener, cancel_context, start, stop_app,
  provision,
}
use point_c.Caddyfile.{Line}
use point_c.Forward.App.Reading
use point_c.Forward.App.Reading.{unmarshal_caddyfile, forwards_of}
use point_c.Forward.App.Stopping
use point_c.Forward.App.Stopping.{stop_calls}
use point_c.Forward.App.Provisioning
use point_c.Forward.App.Provisioning.{Made, tcp_pairs}

abbrev forwarder : ℕ → Forwarder ℕ Bytes
forwarder n = record { net = n; dst = 80; addr = codes "a" }

abbrev listen : Forwarder ℕ Bytes → ℕ ⊎ GoError
listen f = if bytes_eq f.addr (codes "a") then inl f.net else inr (new "in use")

abbrev call : StopFn → Option GoError
call (close_listener ln) = some (new "closed")
call (cancel_context ln) = none

abbrev forwards : Forwards ℕ Bytes
forwards = record { forwards = []; forwarders = forwarder 1 ∷ forwarder 2 ∷ []; stop = [] }

stop_app-start_example :
    (let (q, running, e') = start listen forwards in
      let (q', calls, stopped) = stop_app call q in
      let (again, calls', stopped') = stop_app call q' in
      (running ≡ 1 ∷ 2 ∷ [])
      × (e' ≡ none)
      × (calls ≡ stop_calls (1 ∷ 2 ∷ []) ++ reverse [])
      × ((stopped ≡ none) ↔ All (λ fn. call fn ≡ none) calls)
      × (calls' ≡ [])
      × (stopped' ≡ none))
stop_app-start_example =
    Stopping.stop_app-start listen call forwards (1 ∷ 2 ∷ []) none (refl, (refl, refl))

abbrev addresses : AddrTools Bytes
addresses = record { print_ip = λ ip. ip; parse_network_address = λ s. inl s }

abbrev found : Bytes → Option ℕ
found name = if bytes_eq name (codes "n") then some 3 else none

abbrev configured : Forwards ℕ Bytes
configured = record {
  forwards =
      record {
        name = record { value = codes "n"; original = codes "n" };
        ports = record { value = zero_pair; original = codes "0:0" } ∷ [];
      }
      ∷ [];
  forwarders = [];
  stop = [];
}

abbrev ready : Forwards ℕ Bytes
ready = record {
  forwards = [];
  forwarders = record { net = 3; dst = 0; addr = codes ":0" } ∷ [];
  stop = [];
}

provision_run : provision addresses found configured false ≡ (ready, false, none)
unfolding provision is_udp get_src get_dst get_host get_value format_uint
provision_run = refl

provision-Made_example :
    (made : List (Forwarder ℕ Bytes)) × (ready.forwarders ≡ [] ++ made)
    × Made addresses found (tcp_pairs configured.forwards) made
    × (ready.forwards ≡ [])
    × (ready.stop ≡ [])
provision-Made_example =
    Provisioning.provision-Made addresses found configured ready false false provision_run

abbrev pair_tools : PairTools
pair_tools = record {
  tools = record {
    replace_all = λ s. s;
    valid_bytes = λ s. false;
    quote = λ s. s;
    unmarshal_string = λ s. none;
  };
  parse_ip = λ s. ok s;
}

abbrev documented : List (Bytes × List Line)
documented = (codes "n", record { head = codes "80:8080"; args = [] } ∷ []) ∷ []

unmarshal_caddyfile_single_example :
    unmarshal_caddyfile pair_tools forwards (forwards_of pair_tools documented) ≡ (
      record forwards {
        forwards =
            record { name = record { value = codes "n"; original = codes "n" }; ports = [] } ∷ [];
      },
      none,
    )
unmarshal_caddyfile_single_example =
    Reading.unmarshal_caddyfile_single pair_tools forwards documented ((refl, tt), tt)
