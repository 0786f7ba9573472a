-- ===== src/Pointc/Append.antt =====
-- `Pointc.UnmarshalCaddyfile` fills the interface of the resuming unmarshaler.
use point_c.Base.{
  ◌≡◌, refl, sym, ◌∙◌, ap, Option, none, some, List, [], ◌∷◌, ◌++◌, Bytes, codes, GoError, Result,
  arith, append-nil, append_assoc, inl,
}
use point_c.Caddyfile.{Line, Directive, Tokens, LoadModule}
use point_c.Unmarshaler.{and_then, CaddyfileUnmarshaler}
use point_c.Pointc.{Pointc, unmarshal_block, append_raw, unmarshal_caddyfile}

-- The lines load to these JSON texts, one for each, under their ids.
abbrev pub Loads : LoadModule → List Line → List Bytes → Type 0
Loads load [] [] = Unit {0}
Loads load [] (r ∷ rs) = ⊥
Loads load (l ∷ ls) [] = ⊥
Loads load (l ∷ ls) (r ∷ rs) = (load (codes "point-c.net." ++ l.head) l ≡ inl r) × Loads load ls rs

abbrev pub raw_list : Option (List Bytes) → List Bytes
raw_list none = []
raw_list (some rs) = rs

raw_list-append_raw :
    (Net : Type 0) (o : Option (List Bytes)) (r : Bytes)
    → raw_list (append_raw Net o r) ≡ raw_list o ++ r ∷ []
unfolding append_raw
raw_list-append_raw Net none r = refl
raw_list-append_raw Net (some rs) r = refl

-- The texts of the lines of each directive.
abbrev pub LoadsAll : LoadModule → Tokens → List (List Bytes) → Type 0
LoadsAll load [] [] = Unit {0}
LoadsAll load [] (r ∷ rs) = ⊥
LoadsAll load (d ∷ ds) [] = ⊥
LoadsAll load (d ∷ ds) (r ∷ rs) = Loads load d.block r × LoadsAll load ds rs

abbrev pub joined : List (List Bytes) → List Bytes
joined [] = []
joined (r ∷ rs) = r ++ joined rs

module _ {Net : Type 0} (load : LoadModule) where
  run_step :
      (wg : Pointc Net) (d : Directive) (ds : Tokens)
      → unmarshal_caddyfile Net load wg (d ∷ ds)
        ≡ and_then (unmarshal_caddyfile Net load) (unmarshal_block Net load wg d.block) ds
  unfolding unmarshal_caddyfile
  run_step wg d ds = ground arith

  -- Directives behind others are unmarshaled into what these leave, unless they end in an error.
  pub unmarshal_caddyfile-append :
      (wg : Pointc Net) (a b : Tokens)
      → unmarshal_caddyfile Net load wg (a ++ b)
        ≡ and_then (unmarshal_caddyfile Net load) (unmarshal_caddyfile Net load wg a) b
  unmarshal_caddyfile-append wg [] b = unfold unmarshal_caddyfile in refl
  unmarshal_caddyfile-append wg (d ∷ a) b =
      run_step wg d (a ++ b)
      ∙ go (unmarshal_block Net load wg d.block) (λ w. unmarshal_caddyfile-append w a b)
      ∙ ap (λ r. and_then (unmarshal_caddyfile Net load) r b) (sym (run_step wg d a))
    where
      go :
          (r : Pointc Net × Option GoError)
          → ((w : Pointc Net)
              → unmarshal_caddyfile Net load w (a ++ b)
                ≡ and_then (unmarshal_caddyfile Net load) (unmarshal_caddyfile Net load w a) b)
          → and_then (unmarshal_caddyfile Net load) r (a ++ b)
            ≡ and_then
                (unmarshal_caddyfile Net load)
                (and_then (unmarshal_caddyfile Net load) r a)
                b
      go (w, none) ih = ih w
      go (w, some e) ih = refl

  -- The app as the resuming unmarshaler sees it, with a JSON form given.
  abbrev pub pointc_unmarshaler :
      (Pointc Net → Bytes) → (Bytes → Result (Pointc Net)) → CaddyfileUnmarshaler (Pointc Net)
  pointc_unmarshaler to_json from_json = record {
    zero_value = record { networks_raw = none; networks = []; net = [] };
    unmarshal_caddyfile = unmarshal_caddyfile Net load;
    unmarshal_caddyfile-append = unmarshal_caddyfile-append;
    to_json = to_json;
    from_json = from_json;
  }

  block_step :
      (wg : Pointc Net) (l : Line) (ls : List Line) (r : Bytes)
      → load (codes "point-c.net." ++ l.head) l ≡ inl r
      → unmarshal_block Net load wg (l ∷ ls)
        ≡ unmarshal_block Net load
            (record wg { networks_raw = append_raw Net wg.networks_raw r })
            ls
  unfolding unmarshal_block
  block_step wg l ls r e = rw (e, unmarshal_block)

  unmarshal_block_raw :
      (wg : Pointc Net) (ls : List Line) (rs : List Bytes)
      → Loads load ls rs
      → ((unmarshal_block Net load wg ls).1 ≡ none)
        × (raw_list (unmarshal_block Net load wg ls).0.networks_raw
            ≡ raw_list wg.networks_raw ++ rs)
  unmarshal_block_raw wg [] [] h =
      (unfold unmarshal_block in refl, unfold unmarshal_block in rw append-nil)
  unmarshal_block_raw wg [] (r ∷ rs) h = absurd h
  unmarshal_block_raw wg (l ∷ ls) [] h = absurd h
  unmarshal_block_raw wg (l ∷ ls) (r ∷ rs) (h, hs) =
      let (good, raws) =
        unmarshal_block_raw (record wg { networks_raw = append_raw Net wg.networks_raw r }) ls rs
          hs in
      (
        rw (block_step wg l ls r h) good,
        rw (block_step wg l ls r h) (
            raws
            ∙ rw (raw_list-append_raw Net wg.networks_raw r)
                (append_assoc (raw_list wg.networks_raw) (r ∷ []) rs)),
      )

  unmarshal_caddyfile_step :
      (wg : Pointc Net) (d : Directive) (ds : Tokens)
      → (unmarshal_block Net load wg d.block).1 ≡ none
      → unmarshal_caddyfile Net load wg (d ∷ ds)
        ≡ unmarshal_caddyfile Net load (unmarshal_block Net load wg d.block).0 ds
  unfolding unmarshal_caddyfile
  unmarshal_caddyfile_step wg d ds e = rw (e, unmarshal_caddyfile)

  -- Where every line of a Caddyfile names a module that loads, there is no error, and the JSON
  -- texts of the modules stand behind those that were there, in the order of the lines.
  pub unmarshal_caddyfile_raw :
      (wg : Pointc Net) (ds : Tokens) (rs : List (List Bytes))
      → LoadsAll load ds rs
      → ((unmarshal_caddyfile Net load wg ds).1 ≡ none)
        × (raw_list (unmarshal_caddyfile Net load wg ds).0.networks_raw
            ≡ raw_list wg.networks_raw ++ joined rs)
  unmarshal_caddyfile_raw wg [] [] h =
      (unfold unmarshal_caddyfile in refl, unfold unmarshal_caddyfile in rw append-nil)
  unmarshal_caddyfile_raw wg [] (r ∷ rs) h = absurd h
  unmarshal_caddyfile_raw wg (d ∷ ds) [] h = absurd h
  unmarshal_caddyfile_raw wg (d ∷ ds) (r ∷ rs) (h, hs) =
      let (good, raws) = unmarshal_block_raw wg d.block r h in
      let step = unmarshal_caddyfile_step wg d ds good in
      let (good', raws') =
        unmarshal_caddyfile_raw (unmarshal_block Net load wg d.block).0 ds rs hs in
      (
        rw step good',
        rw step (raws' ∙ rw raws (append_assoc (raw_list wg.networks_raw) r (joined rs))),
      )
