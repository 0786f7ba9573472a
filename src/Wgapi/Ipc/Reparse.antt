-- ===== src/Wgapi/Ipc/Reparse.antt =====
-- What `Value` returns can be written and read again.
use mathlib.Core.Path.{subst}
use point_c.Wgapi.Ipc.Total.{value_loop_rule}
use point_c.Base.{
  errorf, num, text, ℕ, ◌+◌, ◌≡◌, Option, some, none, [], ◌∷◌, Bytes, length, arith, sym, ◌∙◌, map,
  All, All-append, ok, err, panic, Result, GoError, cut, Option-cases, inl, inr,
}
use point_c.Wgapi.Key.{KeyName}
use point_c.Wgapi.Addr.{AddrText}
use point_c.Wgapi.Value.{IpcKeyValue}
use point_c.Wgapi.Parser.{parser, lookup_parser}
use point_c.Wgapi.Typing.{IsParsed, IsPrintable, read_back, parser_sound}
use point_c.Wgapi.Ipc.{
  Ipc, Returned, returned, panicked, parsed, failed, parse_pair, parsed_value, parse_line,
  value_loop, value, max_scan_token_size, wg_config,
}
use point_c.Wgapi.Ipc.RoundTrip.{IsWritable, value-wg_config}

module _ (net : AddrText) where
  parsed_value-eq :
      (i : ℕ) (k : Bytes) (r : Result IpcKeyValue) (kv : IpcKeyValue)
      → parsed_value net i k r ≡ parsed kv
      → r ≡ ok kv
  unfolding parsed_value
  parsed_value-eq i k (ok v) kv h = ground arith
  parsed_value-eq i k (err e) kv h = cc
  parsed_value-eq i k panic kv h = cc

  parse_pair_sound :
      (i : ℕ) (k v : Bytes) (o : Option KeyName) (kv : IpcKeyValue)
      → parse_pair net i k v o ≡ parsed kv
      → IsParsed net kv
  unfolding parse_pair
  parse_pair_sound i k v none kv h = cc
  parse_pair_sound i k v (some name) kv h =
      (parser_sound net name v kv (parsed_value-eq i k (parser net name v) kv h)).0

  pub parse_line_uncut :
      (i : ℕ) (t : Bytes)
      → cut b'=' t ≡ none
      → parse_line net i t
        ≡ failed (errorf "line %d malformed, expected key=value, got %q" (num i ∷ text t ∷ []))
  unfolding parse_line
  parse_line_uncut i t e = rw e

  pub parse_line-cut :
      (i : ℕ) (t k v : Bytes)
      → cut b'=' t ≡ some (k, v)
      → parse_line net i t ≡ parse_pair net i k v (lookup_parser k)
  unfolding parse_line
  parse_line-cut i t k v e = rw e

  -- A line that parses gives a value of its key's type.
  pub parse_line_sound :
      (i : ℕ) (t : Bytes) (kv : IpcKeyValue) → parse_line net i t ≡ parsed kv → IsParsed net kv
  parse_line_sound i t kv h = elim (Option-cases (cut b'=' t)) [
    | inl e ↦ cc (parse_line_uncut i t e, h)
    | inr ((k, v), e) ↦
        parse_pair_sound i k v (lookup_parser k) kv (sym (parse_line-cut i t k v e) ∙ h)
  ]

  -- A result whose list holds values of their keys' types only.
  abbrev pub HoldsParsed : Returned → Type 0
  HoldsParsed (returned ipc e) = All (IsParsed net) ipc
  HoldsParsed panicked = Unit {0}

  -- Whatever the input, and also where `Value` returns an error beside the list, the values of the
  -- list have the types and ranges of their keys.
  pub value-HoldsParsed : (input : Bytes) (r : Returned) → value net input ≡ some r → HoldsParsed r
  value-HoldsParsed input r h =
      let (r', e, holds) =
        value_loop_rule net (All (IsParsed net)) HoldsParsed
          (λ i ipc t kv q l p. All-append _ ipc (kv ∷ []) q (parse_line_sound i t kv p, tt))
          (λ ipc e q. q) (λ e. tt) (λ _ _ _. tt) (length input + 1) max_scan_token_size 0 [] input
          (omega arith) (omega arith) tt in
      let h' : value_loop net (length input + 1) max_scan_token_size 0 [] input ≡ some r =
        unfold value in h in
      let same : r' ≡ r = cc in subst HoldsParsed same holds

  -- What `Value` has read, be it beside an error, is written and read again, if its 64-bit
  -- counters are below 2^63 and its addresses have no zone.
  pub value-wg_config-value :
      (input : Bytes) (ipc : Ipc) (e : Option GoError)
      → value net input ≡ some (returned ipc e)
      → All (IsPrintable net) ipc
      → value net (wg_config net ipc) ≡ some (returned (map read_back ipc) none)
  value-wg_config-value input ipc e h p =
      value-wg_config net ipc (both ipc (value-HoldsParsed input (returned ipc e) h) p)
    where
      both :
          (kvs : Ipc)
          → All (IsParsed net) kvs
          → All (IsPrintable net) kvs
          → All (IsWritable net) kvs
      both [] _ _ = tt
      both (kv ∷ kvs) (t, ts) (q, qs) = ((t, q), both kvs ts qs)
