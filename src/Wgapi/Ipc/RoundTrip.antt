-- ===== src/Wgapi/Ipc/RoundTrip.antt =====
-- `IPCGet.Value` reads back what `IPC.WGConfig` writes.
use point_c.Base.{
  ℕ, zero, suc, ◌+◌, ◌<◌, ◌≡◌, ◌≢◌, refl, some, none, [], ◌∷◌, ◌++◌, Bytes, length, length-append,
  arith, ap, ◌∙◌, map, All, All-append, Lacks, append_assoc, append-nil, cut-append,
}
use point_c.Wgapi.Key.{key_string, key_string-Lacks, length-key_string}
use point_c.Wgapi.Addr.{AddrText}
use point_c.Wgapi.Value.{IpcKeyValue, kv_key, kv_string, key_name}
use point_c.Wgapi.Scanner.{scan-line, scan-nil}
use point_c.Wgapi.Parser.{lookup_parser-key_string}
use point_c.Wgapi.Typing.{read_back, IsParsed, IsPrintable, parser-kv_string, kv_string_line}
use point_c.Wgapi.Ipc.{
  Ipc, returned, parsed, parse_line, value_loop, value, max_scan_token_size, value_loop_stop,
  value_loop_parsed, wg_config,
}
use point_c.Wgapi.Ipc.Print.{pair_text, lines, wg_config-lines}

module _ (net : AddrText) where
  -- A value that `String` prints in a form that the parser of its key accepts.
  abbrev pub IsWritable : IpcKeyValue → Type 0
  IsWritable kv = IsParsed net kv × IsPrintable net kv

  parse_line-pair_text :
      (i : ℕ) (kv : IpcKeyValue)
      → IsWritable kv
      → parse_line net i (pair_text net kv) ≡ parsed (read_back kv)
  unfolding parse_line kv_key
  parse_line-pair_text i kv (t, p) = rw (
    cut-append b'=' (key_string (key_name kv)) (kv_string net kv)
        (key_string-Lacks (key_name kv)).1,
    lookup_parser-key_string (key_name kv),
    parser-kv_string net kv t p,
  )

  pair_text_line :
      (kv : IpcKeyValue)
      → IsWritable kv
      → Lacks b'\n' (pair_text net kv) × (length (pair_text net kv) < max_scan_token_size)
  unfolding kv_key
  pair_text_line kv (t, p) =
      let (lacks, short) = kv_string_line net kv t p in
      let key = key_string (key_name kv) in
      (
        All-append _ key (b'=' ∷ kv_string net kv) (key_string-Lacks (key_name kv)).0
            (omega arith, lacks),
        omega (arith, length-append key (b'=' ∷ kv_string net kv), length-key_string (key_name kv)),
      )

  pair_text-ne-nil : (kv : IpcKeyValue) → pair_text net kv ≢ []
  pair_text-ne-nil kv e =
      absurd (omega (arith, ap length e, length-append (kv_key kv) (b'=' ∷ kv_string net kv)))

  -- The loop over one good line.
  pub one_line :
      (fuel i : ℕ) (done : Ipc) (t rest : Bytes) (kv : IpcKeyValue)
      → t ≢ []
      → Lacks b'\n' t
      → length t < max_scan_token_size
      → parse_line net i t ≡ parsed kv
      → value_loop net (suc fuel) max_scan_token_size i done (t ++ b'\n' ∷ rest)
        ≡ value_loop net fuel max_scan_token_size (i + 1) (done ++ kv ∷ []) rest
  one_line fuel i done [] rest kv ne lacks fits p = absurd (ne refl)
  one_line fuel i done (c ∷ cs) rest kv ne lacks fits p =
      value_loop_parsed net fuel max_scan_token_size i done _ c cs rest kv
        (scan-line max_scan_token_size (c ∷ cs) rest lacks fits) p

  value_loop-lines :
      (ir done : Ipc) (fuel i : ℕ)
      → All IsWritable ir
      → length (lines net ir) < fuel
      → value_loop net fuel max_scan_token_size i done (lines net ir)
        ≡ some (returned (done ++ map read_back ir) none)
  value_loop-lines ir done zero i w h = absurd (omega arith)
  value_loop-lines [] done (suc fuel) i w h =
      value_loop_stop net fuel max_scan_token_size i done [] none (scan-nil _ (omega arith))
      ∙ rw append-nil
  value_loop-lines (kv ∷ ir) done (suc fuel) i (wk, w) h =
      let (lacks, fits) = pair_text_line kv wk in
      let shorter : length (lines net ir) < fuel =
        omega (arith, length-append (pair_text net kv) (b'\n' ∷ lines net ir)) in
      one_line fuel i done (pair_text net kv) (lines net ir) (read_back kv) (pair_text-ne-nil kv)
        lacks fits (parse_line-pair_text i kv wk)
      ∙ value_loop-lines ir (done ++ read_back kv ∷ []) fuel (i + 1) w shorter
      ∙ rw append_assoc

  -- `Value` of the text that `WGConfig` writes for a list of writable values, each of its key's type
  -- and range, its 64-bit counters below 2 ^ 63 and its addresses without a zone, is the list itself,
  -- with no error, but that its IPv4 networks are in the form of 4 bytes and its IPv4 addresses in
  -- that of 16 bytes.
  pub value-wg_config :
      (ir : Ipc)
      → All IsWritable ir
      → value net (wg_config net ir) ≡ some (returned (map read_back ir) none)
  unfolding value
  value-wg_config ir w =
      rw (wg_config-lines net ir)
        (value_loop-lines ir [] (length (lines net ir) + 1) 0 w (omega arith))
