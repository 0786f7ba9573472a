-- ===== src/Wgapi/Ipc/Panics.antt =====
-- `IPCGet.Value` panics only where the parser of a key does.
use mathlib.Core.Path.{subst}
use point_c.Base.{
  ℕ, ◌+◌, ◌≡◌, ◌∙◌, refl, sym, Option, some, none, [], Bytes, length, arith, Result, ok, err, panic,
  cut, Option-cases, inl, inr,
}
use point_c.Wgapi.Key.{KeyName}
use point_c.Wgapi.Addr.{AddrText}
use point_c.Wgapi.Value.{IpcKeyValue}
use point_c.Wgapi.Parser.{parser, lookup_parser}
use point_c.Wgapi.Ipc.{
  Returned, returned, panicked, line_panic, parse_pair, parsed_value, parse_line, value_loop, value,
  max_scan_token_size,
}
use point_c.Wgapi.Ipc.Reparse.{parse_line_uncut, parse_line-cut}
use point_c.Wgapi.Ipc.Total.{value_loop_rule}

module _ (net : AddrText) where
  -- A parser of the table panics on some text.
  abbrev pub Explained : Returned → Type 0
  Explained (returned ipc e) = Unit {0}
  Explained panicked = (k : KeyName) × (v : Bytes) × (parser net k v ≡ panic)

  parsed_value-panic :
      (i : ℕ) (k : Bytes) (r : Result IpcKeyValue) → parsed_value net i k r ≡ line_panic → r ≡ panic
  unfolding parsed_value
  parsed_value-panic i k (ok v) h = cc
  parsed_value-panic i k (err e) h = cc
  parsed_value-panic i k panic h = refl

  parse_pair-panic :
      (i : ℕ) (k v : Bytes) (o : Option KeyName)
      → parse_pair net i k v o ≡ line_panic
      → Explained panicked
  unfolding parse_pair
  parse_pair-panic i k v none h = cc
  parse_pair-panic i k v (some name) h = (name, v, parsed_value-panic i k (parser net name v) h)

  parse_line-panic : (i : ℕ) (t : Bytes) → parse_line net i t ≡ line_panic → Explained panicked
  parse_line-panic i t h = elim (Option-cases (cut b'=' t)) [
    | inl e ↦ cc (parse_line_uncut net i t e, h)
    | inr ((k, v), e) ↦
        parse_pair-panic i k v (lookup_parser k) (sym (parse_line-cut net i t k v e) ∙ h)
  ]

  pub value-Explained : (input : Bytes) (r : Returned) → value net input ≡ some r → Explained r
  value-Explained input r h =
      let (r', e, holds) =
        value_loop_rule net (λ _. Unit {0}) Explained (λ _ _ _ _ _ _ _. tt) (λ _ _ _. tt) (λ _. tt)
          parse_line-panic (length input + 1) max_scan_token_size 0 [] input (omega arith)
          (omega arith) tt in
      let h' : value_loop net (length input + 1) max_scan_token_size 0 [] input ≡ some r =
        unfold value in h in
      let same : r' ≡ r = cc in subst Explained same holds
