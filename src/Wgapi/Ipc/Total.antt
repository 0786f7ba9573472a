-- ===== src/Wgapi/Ipc/Total.antt =====
-- `IPCGet.Value` ends on every input; and a rule that carries an invariant through its loop.
use point_c.Base.{
  ℕ, zero, suc, ◌+◌, ◌<◌, ◌≡◌, refl, Option, some, none, [], ◌∷◌, ◌++◌, Bytes, length,
  length-append, Lacks, arith, ap, ◌∙◌, GoError,
}
use point_c.Wgapi.Addr.{AddrText}
use point_c.Wgapi.Value.{IpcKeyValue}
use point_c.Wgapi.Scanner.{scan, Scanned, token, stop, Found, line, scan-Found}
use point_c.Wgapi.Ipc.{
  Ipc, Returned, returned, panicked, LineResult, parsed, failed, line_panic, parse_line, value_loop,
  value, max_scan_token_size, value_loop_stop, value_loop_blank, value_loop_parsed,
  value_loop_failed, value_loop_panic,
}

-- `Q` holds of the list throughout the loop, and `P` of what it returns.
module _ (net : AddrText) (Q : Ipc → Type 0) (P : Returned → Type 0)
    (grow : (i : ℕ) (ipc : Ipc) (t : Bytes) (kv : IpcKeyValue)
      → Q ipc
      → Lacks b'\n' t
      → parse_line net i t ≡ parsed kv
      → Q (ipc ++ kv ∷ []))
    (finish : (ipc : Ipc) (e : Option GoError) → Q ipc → P (returned ipc e))
    (give_up : (e : GoError) → P (returned [] (some e)))
    (crash : (i : ℕ) (t : Bytes) → parse_line net i t ≡ line_panic → P panicked) where
  abbrev Ends : ℕ → ℕ → ℕ → Ipc → Bytes → Type 0
  Ends fuel limit i ipc input =
      (r : Returned) × (value_loop net fuel limit i ipc input ≡ some r) × P r

  pub value_loop_rule :
      (fuel limit i : ℕ) (ipc : Ipc) (input : Bytes)
      → 0 < limit
      → length input < fuel
      → Q ipc
      → Ends fuel limit i ipc input
  value_loop_rule zero limit i ipc input pos h q = absurd (omega arith)
  value_loop_rule (suc fuel) limit i ipc input pos h q =
      round (scan limit input) refl (scan-Found limit input pos)
        (λ j kvs rest. value_loop_rule fuel limit j kvs rest pos)
    where
      on_line :
          (c : ℕ) (cs rest : Bytes)
          → scan limit input ≡ token (c ∷ cs) rest
          → Lacks b'\n' (c ∷ cs)
          → (l : LineResult) → parse_line net i (c ∷ cs) ≡ l
          → ((kvs : Ipc) → Q kvs → Ends fuel limit (i + 1) kvs rest)
          → Ends (suc fuel) limit i ipc input
      on_line c cs rest e lacks (parsed kv) p again =
          let (r, eq, holds) = again (ipc ++ kv ∷ []) (grow i ipc (c ∷ cs) kv q lacks p) in
          (r, value_loop_parsed net fuel limit i ipc input c cs rest kv e p ∙ eq, holds)
      on_line c cs rest e lacks (failed x) p again = (
        returned [] (some x),
        value_loop_failed net fuel limit i ipc input c cs rest x e p,
        give_up x,
      )
      on_line c cs rest e lacks line_panic p again =
          (panicked, value_loop_panic net fuel limit i ipc input c cs rest e p, crash i (c ∷ cs) p)

      round :
          (s : Scanned)
          → scan limit input ≡ s
          → Found limit input s
          → ((j : ℕ) (kvs : Ipc) (rest : Bytes)
              → length rest < fuel
              → Q kvs
              → Ends fuel limit j kvs rest)
          → Ends (suc fuel) limit i ipc input
      round (stop x) e f again =
          (returned ipc x, value_loop_stop net fuel limit i ipc input x e, finish ipc x q)
      round (token [] rest) e f again =
          (returned ipc none, value_loop_blank net fuel limit i ipc input rest e, finish ipc none q)
      round (token (c ∷ cs) rest) e (line l r lacks fits whole) again =
          let shorter : length rest < fuel =
            omega (arith, ap length whole, length-append (c ∷ cs) (b'\n' ∷ rest)) in
          on_line c cs rest e lacks (parse_line net i (c ∷ cs)) refl
            (λ kvs. again (i + 1) kvs rest shorter)

module _ (net : AddrText) where
  -- `Value` comes to its end on every input, by returning or by a panic: the fuel that it is given is
  -- never used up.
  pub value_total : (input : Bytes) → (r : Returned) × (value net input ≡ some r)
  unfolding value
  value_total input =
      let (r, e, _) =
        value_loop_rule net (λ _. Unit {0}) (λ _. Unit {0}) (λ _ _ _ _ _ _ _. tt) (λ _ _ _. tt)
          (λ _. tt) (λ _ _ _. tt) (length input + 1) max_scan_token_size 0 [] input (omega arith)
          (omega arith) tt in
      (r, e)
