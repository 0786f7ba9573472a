-- ===== src/Forward/App/Reading.antt =====
-- forward.go, `Forwards.UnmarshalCaddyfile`.
use point_c.Base.{
  ◌≡◌, refl, ap, Option, none, some, List, [], ◌∷◌, ◌++◌, Bytes, GoError, new, All, append-nil,
  append_assoc, ◌∙◌,
}
use point_c.Caddyfile.{Line, Tokens}
use point_c.Configvalues.Values.{value_string}
use point_c.Configvalues.Unmarshaler.{CaddyTextUnmarshaler, unmarshal_text}
use point_c.Forward.PortPair.{PairTools, PortPair, zero_pair, zero_text, unmarshal_pair}
use point_c.Forward.App.{Forward, Forwards}

-- `d.ArgErr()`.
abbrev pub arg_err : GoError
arg_err = new "wrong argument count or unexpected line ending"

-- The tokens of a line that the loop unmarshals: `NextBlock` takes one, and `NextArg` the one
-- behind it, if there is one; what is left of the line begins the next round.
abbrev pub pair_tokens : List Bytes → List Bytes
pair_tokens [] = []
pair_tokens (t ∷ []) = []
pair_tokens (t ∷ u ∷ ts) = u ∷ pair_tokens ts

module _ (pt : PairTools) where
  -- `pp.UnmarshalText` on a new variable.
  abbrev pub new_pair : Bytes → CaddyTextUnmarshaler PortPair × Option GoError
  new_pair text =
      let (pp, e) = unmarshal_pair pt zero_pair (pt.tools.replace_all text) in
      (record { value = pp; original = text }, e)

  -- `f.Ports` behind these tokens.
  unmarshal_pairs :
      List Bytes
      → List (CaddyTextUnmarshaler PortPair)
      → List (CaddyTextUnmarshaler PortPair) × Option GoError
  unmarshal_pairs [] ports = (ports, none)
  unmarshal_pairs (t ∷ ts) ports =
      let (pp, e) = new_pair t in
      elim e [ some x ↦ (ports, some x) | none ↦ unmarshal_pairs ts (ports ++ pp ∷ []) ]

  -- The loop over the lines of the block.
  unmarshal_lines :
      List Line
      → List (CaddyTextUnmarshaler PortPair)
      → List (CaddyTextUnmarshaler PortPair) × Option GoError
  unfolding unmarshal_pairs
  unmarshal_lines [] ports = (ports, none)
  unmarshal_lines (l ∷ ls) ports =
      let (ports', e) = unmarshal_pairs (pair_tokens (l.head ∷ l.args)) ports in
      elim e [ some x ↦ (ports', some x) | none ↦ unmarshal_lines ls ports' ]

  -- The body of the outer loop behind the first argument.
  unmarshal_forward : Bytes → List Line → Forward × Option GoError
  unfolding unmarshal_lines unmarshal_text
  unmarshal_forward name block =
      let (n, e) = unmarshal_text pt.tools value_string zero_text name in
      elim e [
        | some x ↦ (record { name = n; ports = [] }, some x)
        | none ↦
            let (ports, e') = unmarshal_lines block [] in (record { name = n; ports = ports }, e')
      ]

  -- `append(p.Forwards, &f)`, unless there was an error.
  abbrev pub add_forward :
      {Net Addr : Type 0}
      → Forwards Net Addr
      → Forward × Option GoError
      → Forwards Net Addr × Option GoError
  add_forward p (f, some e) = (p, some e)
  add_forward p (f, none) = (record p { forwards = p.forwards ++ f ∷ [] }, none)

  -- `return err`, or the rest.
  abbrev pub unless_error :
      {Net Addr : Type 0}
      → Forwards Net Addr × Option GoError
      → (Forwards Net Addr → Forwards Net Addr × Option GoError)
      → Forwards Net Addr × Option GoError
  unless_error (p, some e) rest = (p, some e)
  unless_error (p, none) rest = rest p

  -- The rounds of the outer loop for one line. Behind the name there is a block, or another
  -- argument of the line, which `d.Next` then takes for the start of a forward without a block.
  unmarshal_args :
      {Net Addr : Type 0}
      → Forwards Net Addr
      → List Bytes
      → List Line
      → Forwards Net Addr × Option GoError
  unfolding unmarshal_forward
  unmarshal_args p [] block = (p, some arg_err)
  unmarshal_args p (name ∷ []) block = add_forward p (unmarshal_forward name block)
  unmarshal_args p (name ∷ next ∷ args) block =
      unless_error (add_forward p (unmarshal_forward name [])) (λ q. unmarshal_args q args block)

  -- `Forwards.UnmarshalCaddyfile`.
  unfoldable pub unmarshal_caddyfile :
      {Net Addr : Type 0} → Forwards Net Addr → Tokens → Forwards Net Addr × Option GoError
  unfolding unmarshal_args
  unmarshal_caddyfile p [] = (p, none)
  unmarshal_caddyfile p (d ∷ ds) =
      unless_error (unmarshal_args p d.args d.block) (λ q. unmarshal_caddyfile q ds)

  unmarshal_lines_single :
      (ls : List Line) (ports : List (CaddyTextUnmarshaler PortPair))
      → All (λ l. l.args ≡ []) ls
      → unmarshal_lines ls ports ≡ (ports, none)
  unfolding unmarshal_lines unmarshal_pairs
  unmarshal_lines_single [] ports h = refl
  unmarshal_lines_single (l ∷ ls) ports (h, hs) = rw h (unmarshal_lines_single ls ports hs)

  unmarshal_forward_single :
      (name : Bytes) (block : List Line)
      → All (λ l. l.args ≡ []) block
      → unmarshal_forward name block ≡ (
        record { name = record { value = pt.tools.replace_all name; original = name }; ports = [] },
        none,
      )
  unfolding unmarshal_forward unmarshal_text
  unmarshal_forward_single name block h =
      rw (unmarshal_lines_single block [] h, unmarshal_forward) refl

  -- Forwards, each with its name, and with the form that the comment gives for a port pair on each
  -- line of its block.
  abbrev pub forwards_of : List (Bytes × List Line) → Tokens
  forwards_of [] = []
  forwards_of ((name, block) ∷ fs) = record { args = name ∷ []; block = block } ∷ forwards_of fs

  abbrev pub empty_forwards : List (Bytes × List Line) → List Forward
  empty_forwards [] = []
  empty_forwards ((name, block) ∷ fs) =
      record { name = record { value = pt.tools.replace_all name; original = name }; ports = [] }
      ∷ empty_forwards fs

  -- A Caddyfile of forwards, each with one name, whose blocks have one token on each line, which is
  -- the form that the comment gives for a port pair, adds forwards without ports and no error,
  -- whatever the tokens are.
  pub unmarshal_caddyfile_single :
      {Net Addr : Type 0} (p : Forwards Net Addr) (fs : List (Bytes × List Line))
      → All (λ f. All (λ l. l.args ≡ []) f.1) fs
      → unmarshal_caddyfile p (forwards_of fs)
        ≡ (record p { forwards = p.forwards ++ empty_forwards fs }, none)
  unfolding unmarshal_caddyfile unmarshal_args
  unmarshal_caddyfile_single p [] h = rw append-nil
  unmarshal_caddyfile_single p ((name, block) ∷ fs) (h, hs) =
      ap (λ r. unless_error (add_forward p r) (λ q. unmarshal_caddyfile q (forwards_of fs)))
        (unmarshal_forward_single name block h)
      ∙ unmarshal_caddyfile_single
          (record p {
            forwards =
                p.forwards
                ++ record {
                  name = record { value = pt.tools.replace_all name; original = name };
                  ports = [];
                }
                  ∷ [];
          })
          fs hs
      ∙ rw append_assoc
