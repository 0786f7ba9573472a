-- ===== src/Listener/Provisioning.antt =====
-- listener.go: from the line of the Caddyfile to the request that is made of the network.
use point_c.Base.{
  ℕ, ◌^◌, ◌<◌, ◌≡◌, ◌∙◌, refl, ap, none, some, [], ◌∷◌, Bytes, Lacks, GoError, ◌⊎◌, inl, inr,
}
use point_c.Caddyfile.{Tokens}
use point_c.Configvalues.Values.{value_string}
use point_c.Configvalues.Unmarshaler.{CaddyTextUnmarshaler, TextTools, unmarshal_text}
use point_c.Configvalues.Ports.{KeepsPlain, port_read}
use point_c.Strconv.{format_uint}
use point_c.Strconv.Int.{pos}
use point_c.Pointc.{Pointc, lookup_net}
use point_c.Pointc.Net.{Net}
use point_c.Wg.Netstack.Dial.{Request, listen_tcp}
use point_c.WgNetworks.Nets.{IsTunnel}
use point_c.Listener.{
  Listener, with_listener, listen_on, provision, result, delegate, unmarshal_both, unmarshal_args,
  unmarshal_caddyfile,
}

-- The line `point-c <name> <port>`.
abbrev pub line : Bytes → ℕ → Tokens
line name port = record { args = name ∷ format_uint port ∷ []; block = [] } ∷ []

-- The listener with a name and a port, each with its text.
abbrev pub named : {Ln : Type 0} → Listener Ln → Bytes → ℕ → Listener Ln
named p name port = record p {
  name = record { value = name; original = name };
  port = record { value = port; original = format_uint port };
}

name_read :
    (tools : TextTools)
    → KeepsPlain tools
    → (c : CaddyTextUnmarshaler Bytes) (name : Bytes) → Lacks b'{' name
    → unmarshal_text tools value_string c name ≡ (record { value = name; original = name }, none)
unfolding unmarshal_text
name_read tools plain c name h = rw (plain name h)

pub line_read :
    {Ln : Type 0} (tools : TextTools)
    → KeepsPlain tools
    → (p : Listener Ln) (name : Bytes) (port : ℕ) → Lacks b'{' name
    → port < 2 ^ 16
    → unmarshal_caddyfile tools p (line name port) ≡ (named p name port, none)
unfolding unmarshal_caddyfile unmarshal_args unmarshal_both
line_read tools plain p name port h k =
    rw (name_read tools plain p.name name h, port_read tools plain p.port port k)

module _ {Ln Addr : Type 0} (open_listener : Request Addr → Ln ⊎ GoError) where
  pub provision_found :
      (p : Listener Ln) (m : Pointc (Net (Request Addr))) (n : Net (Request Addr))
      → lookup_net (Net (Request Addr)) m p.name.value ≡ some n
      → provision open_listener p (inl m) ≡ listen_on open_listener p n
  unfolding provision
  provision_found p m n h = rw (h, provision)

  pub listen_on_asked :
      (p : Listener Ln) (n : Net (Request Addr)) (r : Request Addr) (o : Ln ⊎ GoError)
      → n.listen (record { ip = n.local_addr; port = pos p.port.value }) ≡ r
      → open_listener r ≡ o
      → listen_on open_listener p n ≡ with_listener p o
  listen_on_asked p n r o e h =
      ap (λ x. with_listener p (open_listener x)) e ∙ ap (with_listener p) h

  -- Where the replacer leaves a text without a brace as it is, a listener that is read from the line
  -- `point-c <name> <port>`, for a name without a brace and a port below 65536, is read without an
  -- error. If the app has a network under the name that keeps the promise of the interface,
  -- `Provision` opens a TCP listener in the tunnel, at the network's own address and this port: it
  -- stores the listener, to which `Accept`, `Close` and `Addr` then go, or returns the error of the
  -- stack.
  pub provision-unmarshal_caddyfile :
      {R : Type 0} (tools : TextTools) (from : Bytes → Addr) (nic : ℕ) (n : Net (Request Addr))
      (m : Pointc (Net (Request Addr))) (p : Listener Ln) (name : Bytes) (port : ℕ)
      → KeepsPlain tools
      → IsTunnel from nic n
      → Lacks b'{' name
      → port < 2 ^ 16
      → lookup_net (Net (Request Addr)) m name ≡ some n
      → (let r = unmarshal_caddyfile tools p (line name port) in
          let request = listen_tcp (record { nic = nic; addr = from n.local_addr; port = port }) in
          (r.1 ≡ none)
          × ((ln : Ln)
              → open_listener request ≡ inl ln
              → (provision open_listener r.0 (inl m) ≡ (record r.0 { ln = some ln }, none))
                × ((method : Ln → R)
                    → delegate method (provision open_listener r.0 (inl m)).0 ≡ result (method ln)))
          × ((x : GoError)
              → open_listener request ≡ inr x
              → provision open_listener r.0 (inl m) ≡ (r.0, some x)))
  unfolding delegate
  provision-unmarshal_caddyfile tools from nic n m p name port plain t h k found =
      let q = named p name port in
      let asked = t.listens n.local_addr port k in
      let whole = provision_found q m n found in
      rw (line_read tools plain p name port h k) (
        refl,
        λ ln e.
            let stored =
              whole
              ∙ listen_on_asked q n
                  (listen_tcp (record { nic = nic; addr = from n.local_addr; port = port }))
                  (inl ln) asked e in
            (stored, λ method. ap (λ r. delegate method r.0) stored),
        λ x e.
            whole
            ∙ listen_on_asked q n
                (listen_tcp (record { nic = nic; addr = from n.local_addr; port = port })) (inr x)
                asked e,
      )
