-- ===== src/Listener.antt =====
-- listener.go: the caddy listener on a port of one of the networks.
pub mod Provisioning
pub mod Tunnel
use point_c.Base.{
  ℕ, Option, none, some, List, [], ◌∷◌, Bytes, GoError, new, errorf, text, join, ◌⊎◌, inl, inr,
}
use point_c.Caddyfile.{Line, Directive, Tokens}
use point_c.Configvalues.Values.{value_string, value_unsigned}
use point_c.Configvalues.Unmarshaler.{CaddyTextUnmarshaler, TextTools, unmarshal_text}
use point_c.Strconv.Int.{pos}
use point_c.Wg.Netstack.Dial.{SockAddr}
use point_c.Pointc.{Pointc, lookup_net}
use point_c.Pointc.Net.{Net}

-- `Listener`, with its `net.Listener` as `Ln`.
pub record Listener (Ln : Type 0) : Type 0 where
  pub name : CaddyTextUnmarshaler Bytes
  pub port : CaddyTextUnmarshaler ℕ
  pub ln : Option Ln

-- `p.ln = ln`, or the error.
abbrev pub with_listener : {Ln : Type 0} → Listener Ln → Ln ⊎ GoError → Listener Ln × Option GoError
with_listener p (inl ln) = (record p { ln = some ln }, none)
with_listener p (inr e) = (p, some e)

module _ {Ln Request : Type 0} (open_listener : Request → Ln ⊎ GoError) where
  -- `n.Listen(...)` and what follows it.
  abbrev pub listen_on : Listener Ln → Net Request → Listener Ln × Option GoError
  listen_on p n =
      with_listener p
        (open_listener (n.listen (record { ip = n.local_addr; port = pos p.port.value })))

  -- `Listener.Provision`, with the result of `ctx.App("point-c")`.
  unfoldable pub provision :
      Listener Ln → Pointc (Net Request) ⊎ GoError → Listener Ln × Option GoError
  provision p (inr e) = (p, some e)
  provision p (inl m) = elim (lookup_net (Net Request) m p.name.value) [
    | none ↦ (p, some (errorf "point-c net %q does not exist" (text p.name.value ∷ [])))
    | some n ↦ listen_on p n
  ]

-- `Accept`, `Close` and `Addr` call the method of `p.ln`, which panics on nil.
pub data Called (R : Type 0) : Type 0 where
  result : R → Called R
  nil_pointer : Called R

unfoldable pub delegate : {Ln R : Type 0} → (Ln → R) → Listener Ln → Called R
delegate method p = elim p.ln [ some ln ↦ result (method ln) | none ↦ nil_pointer ]

-- `d.ArgErr()`.
abbrev pub arg_err : GoError
arg_err = new "wrong argument count or unexpected line ending"

-- `return err`, or the rest.
abbrev pub unless_error :
    {Ln : Type 0}
    → Listener Ln × Option GoError
    → (Listener Ln → Listener Ln × Option GoError)
    → Listener Ln × Option GoError
unless_error (p, some e) rest = (p, some e)
unless_error (p, none) rest = rest p

module _ {Ln : Type 0} (tools : TextTools) where
  -- Both texts are unmarshalled, and their errors joined.
  unfoldable pub unmarshal_both : Listener Ln → Bytes → Bytes → Listener Ln × Option GoError
  unmarshal_both p name port =
      let (n, e) = unmarshal_text tools value_string p.name name in
      let (m, e') = unmarshal_text tools (value_unsigned 2) p.port port in
      (record p { name = n; port = m }, join e e')

  -- The rounds of the loop for one line: behind the two arguments `d.Next` takes another argument,
  -- or the brace of a block, for the start of a directive.
  unmarshal_args : Listener Ln → List Bytes → List Line → Listener Ln × Option GoError
  unfolding unmarshal_both
  unmarshal_args p [] block = (p, some arg_err)
  unmarshal_args p (name ∷ []) block = (p, some arg_err)
  unmarshal_args p (name ∷ port ∷ []) [] = unmarshal_both p name port
  unmarshal_args p (name ∷ port ∷ []) (l ∷ ls) =
      unless_error (unmarshal_both p name port) (λ q. (q, some arg_err))
  unmarshal_args p (name ∷ port ∷ next ∷ args) block =
      unless_error (unmarshal_both p name port) (λ q. unmarshal_args q args block)

  -- `Listener.UnmarshalCaddyfile`.
  unfoldable pub unmarshal_caddyfile : Listener Ln → Tokens → Listener Ln × Option GoError
  unfolding unmarshal_args
  unmarshal_caddyfile p [] = (p, none)
  unmarshal_caddyfile p (d ∷ ds) =
      unless_error (unmarshal_args p d.args d.block) (λ q. unmarshal_caddyfile q ds)
