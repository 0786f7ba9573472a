-- ===== src/Pointc.antt =====
-- point-c.go: the Caddy app that holds the networks under their names.
pub mod Names
pub mod Append
pub mod Net
use point_c.Base.{
  ℕ, ◌≡◌, Bool, Option, none, some, List, [], ◌∷◌, ◌++◌, Bytes, codes, GoError, new, errorf, wrapf,
  text, Result, ok, err, panic, inl, inr, lookup, insert,
}
use point_c.Caddyfile.{Line, Directive, Tokens, LoadModule}

module _ (Net : Type 0) where
  -- `Network.Networks()`, in the order in which the map is walked.
  abbrev pub Networks : Type 0
  Networks = List (Bytes × Net)

  -- A loaded module: a Network, or a value that is none, on which the type assertion panics.
  pub data Module : Type 0 where
    network : Networks → Module
    other : Module

  -- What `ctx.LoadModule` returns without an error.
  pub data Loaded : Type 0 where
    modules : List Module → Loaded
    not_a_slice : Loaded

  pub record Pointc : Type 0 where
    pub networks_raw : Option (List Bytes)
    pub networks : List Networks
    pub net : Networks

  -- The assertions `v.(Network)` of the first loop.
  assert_networks : List Module → Result (List Networks)
  assert_networks [] = ok []
  assert_networks (other ∷ ms) = panic
  assert_networks (network n ∷ ms) = elim (assert_networks ms) [
    | ok ns ↦ ok (n ∷ ns)
    | err e ↦ err e
    | panic ↦ panic
  ]

  -- The inner loop over one network's map, at `wg.net`.
  add_network : Networks → Networks → Networks × Option GoError
  add_network [] m = (m, none)
  add_network ((name, nn) ∷ es) m =
      let rest = add_network es (insert name nn m) in
      elim (lookup name m) [
        | some _ ↦ (m, some (errorf "net %q declared twice" (text name ∷ [])))
        | none ↦ rest
      ]

  -- The outer loop.
  add_networks : List Networks → Networks → Networks × Option GoError
  add_networks [] m = (m, none)
  add_networks (n ∷ ns) m =
      let (m', e) = add_network n m in elim e [ some x ↦ (m', some x) | none ↦ add_networks ns m' ]

  -- `Provision` behind the call of `LoadModule`.
  provision_loaded : Pointc → Result Loaded → Result (Pointc × Option GoError)
  unfolding assert_networks add_networks add_network
  provision_loaded wg (err e) = ok (wg, some (wrapf "failed to load wireguard networks: %w" [] e))
  provision_loaded wg panic = panic
  provision_loaded wg (ok not_a_slice) = ok (wg, some (errorf "invalid raw module slice %T" []))
  provision_loaded wg (ok (modules ms)) = elim (assert_networks ms) [
    | ok ns ↦ let (m, e) = add_networks ns [] in ok (record wg { networks = ns; net = m }, e)
    | err e ↦ err e
    | panic ↦ panic
  ]

  -- `Pointc.Provision`, with the result of `ctx.LoadModule(wg, "NetworksRaw")` given.
  unfoldable pub provision : Pointc → Result Loaded → Result (Pointc × Option GoError)
  unfolding provision_loaded
  provision wg loaded = elim wg.networks_raw [
    | none ↦ ok (wg, none)
    | some _ ↦ provision_loaded wg loaded
  ]

  -- `Pointc.Lookup`.
  unfoldable pub lookup_net : Pointc → Bytes → Option Net
  lookup_net wg name = lookup name wg.net

  -- `append(wg.NetworksRaw, raw)`.
  append_raw : Option (List Bytes) → Bytes → Option (List Bytes)
  append_raw none raw = some (raw ∷ [])
  append_raw (some rs) raw = some (rs ++ raw ∷ [])

  -- The loop of `UnmarshalCaddyfile` over the lines of one block.
  unmarshal_block : LoadModule → Pointc → List Line → Pointc × Option GoError
  unfolding append_raw
  unmarshal_block load wg [] = (wg, none)
  unmarshal_block load wg (l ∷ ls) = elim (load (codes "point-c.net." ++ l.head) l) [
    | inl raw ↦
        unmarshal_block load (record wg { networks_raw = append_raw wg.networks_raw raw }) ls
    | inr e ↦ (wg, some e)
  ]

  -- `Pointc.UnmarshalCaddyfile`.
  unfoldable pub unmarshal_caddyfile : LoadModule → Pointc → Tokens → Pointc × Option GoError
  unfolding unmarshal_block
  unmarshal_caddyfile load wg [] = (wg, none)
  unmarshal_caddyfile load wg (d ∷ ds) =
      let (wg', e) = unmarshal_block load wg d.block in
      elim e [ some x ↦ (wg', some x) | none ↦ unmarshal_caddyfile load wg' ds ]
