-- ===== src/Wgapi/Get/Reading.antt =====
-- pkg/wg/wgapi/parser.go: `IPCGet.Value` returns what its lines say, and leaves a rest of its
-- buffer.
use mathlib.Core.Path.{subst}
use point_c.Base.{
  ℕ, zero, suc, ◌+◌, ◌≤◌, ◌<◌, ◌≡◌, refl, ap, ◌∙◌, inr, Option, none, some, [], ◌∷◌, ◌++◌, Bytes,
  GoError, length, arith, length-append,
}
use point_c.Wgapi.Addr.{AddrText}
use point_c.Wgapi.Value.{IpcKeyValue}
use point_c.Wgapi.Scanner.{scan, token, Found, line, scan-Found}
use point_c.Wgapi.Ipc.{
  Ipc, Returned, returned, panicked, LineResult, parsed, failed, line_panic, parse_line, value_loop,
  value, max_scan_token_size, value_loop_stop, value_loop_blank, value_loop_parsed,
  value_loop_failed, value_loop_panic,
}
use point_c.Wgapi.Get.{
  LineScanner, new_scanner, start_buf_size, Scan, found, finished, scan_next, weight, get_loop,
  IpcGet, write, reset, get_value,
}
use point_c.Wgapi.Get.Growing.{Fits}
use point_c.Wgapi.Get.Offering.{unread}
use point_c.Wgapi.Get.Scanning.{Left, Left-trans, Agrees, same_token, same_end, scan_next-Agrees}

token-shorter :
    (limit : ℕ) (input l rest : Bytes)
    → Found limit input (token l rest)
    → length rest < length input
token-shorter limit input l rest (line _ _ lacks fits whole) =
    omega (arith, ap length whole, length-append l (b'\n' ∷ rest))

module _ (net : AddrText) (fuel i : ℕ) (ipc : Ipc) (s : LineScanner) where
  get_loop-finished :
      (e : Option GoError) (rest : Bytes)
      → scan_next (weight s + 1) s ≡ some (finished e rest)
      → get_loop net (suc fuel) i ipc s ≡ some (returned ipc e, rest)
  unfolding get_loop
  get_loop-finished e rest h = simp (h, get_loop)

  get_loop_blank :
      (t : LineScanner)
      → scan_next (weight s + 1) s ≡ some (found [] t)
      → get_loop net (suc fuel) i ipc s ≡ some (returned ipc none, t.source)
  unfolding get_loop
  get_loop_blank t h = simp (h, get_loop)

  get_loop-failed :
      (c : ℕ) (cs : Bytes) (t : LineScanner) (e : GoError)
      → scan_next (weight s + 1) s ≡ some (found (c ∷ cs) t)
      → parse_line net i (c ∷ cs) ≡ failed e
      → get_loop net (suc fuel) i ipc s ≡ some (returned [] (some e), t.source)
  unfolding get_loop
  get_loop-failed c cs t e h p = simp (h, p, get_loop)

  get_loop-line_panic :
      (c : ℕ) (cs : Bytes) (t : LineScanner)
      → scan_next (weight s + 1) s ≡ some (found (c ∷ cs) t)
      → parse_line net i (c ∷ cs) ≡ line_panic
      → get_loop net (suc fuel) i ipc s ≡ some (panicked, t.source)
  unfolding get_loop
  get_loop-line_panic c cs t h p = simp (h, p, get_loop)

  get_loop-parsed :
      (c : ℕ) (cs : Bytes) (t : LineScanner) (kv : IpcKeyValue)
      → scan_next (weight s + 1) s ≡ some (found (c ∷ cs) t)
      → parse_line net i (c ∷ cs) ≡ parsed kv
      → get_loop net (suc fuel) i ipc s ≡ get_loop net fuel (i + 1) (ipc ++ kv ∷ []) t
  unfolding get_loop
  get_loop-parsed c cs t kv h p = simp (h, p, get_loop)

module _ (net : AddrText) where
  abbrev Same : ℕ → ℕ → Ipc → LineScanner → Type 0
  Same fuel i ipc s =
      (r : Returned) × (rest : Bytes) × (get_loop net fuel i ipc s ≡ some (r, rest))
      × (value_loop net fuel max_scan_token_size i ipc (unread s) ≡ some r)
      × Left s rest

  get_loop-value_loop :
      (fuel i : ℕ) (ipc : Ipc) (s : LineScanner)
      → Fits s
      → length (unread s) < fuel
      → Same fuel i ipc s
  get_loop-value_loop zero i ipc s v h = absurd (omega arith)
  get_loop-value_loop (suc fuel) i ipc s v h =
      let (o, e, agrees) = scan_next-Agrees (weight s + 1) s v (omega arith) in
      round o e agrees (λ j kvs t. get_loop-value_loop fuel j kvs t)
    where
      on_line :
          (c : ℕ) (cs : Bytes) (t : LineScanner)
          → scan_next (weight s + 1) s ≡ some (found (c ∷ cs) t)
          → scan max_scan_token_size (unread s) ≡ token (c ∷ cs) (unread t)
          → Left s t.source
          → (l : LineResult) → parse_line net i (c ∷ cs) ≡ l
          → ((kvs : Ipc) → Same fuel (i + 1) kvs t)
          → Same (suc fuel) i ipc s
      on_line c cs t e k left (parsed kv) p again =
          let (r, rest, g, q, later) = again (ipc ++ kv ∷ []) in
          (
            r,
            rest,
            get_loop-parsed net fuel i ipc s c cs t kv e p ∙ g,
            value_loop_parsed net fuel max_scan_token_size i ipc (unread s) c cs (unread t) kv k p
                ∙ q,
            Left-trans s t left rest later,
          )
      on_line c cs t e k left (failed x) p again = (
        returned [] (some x),
        t.source,
        get_loop-failed net fuel i ipc s c cs t x e p,
        value_loop_failed net fuel max_scan_token_size i ipc (unread s) c cs (unread t) x k p,
        left,
      )
      on_line c cs t e k left line_panic p again = (
        panicked,
        t.source,
        get_loop-line_panic net fuel i ipc s c cs t e p,
        value_loop_panic net fuel max_scan_token_size i ipc (unread s) c cs (unread t) k p,
        left,
      )

      round :
          (o : Scan)
          → scan_next (weight s + 1) s ≡ some o
          → Agrees s o
          → ((j : ℕ) (kvs : Ipc) (t : LineScanner)
              → Fits t
              → length (unread t) < fuel
              → Same fuel j kvs t)
          → Same (suc fuel) i ipc s
      round o e (same_end x rest k left) again = (
        returned ipc x,
        rest,
        get_loop-finished net fuel i ipc s x rest e,
        value_loop_stop net fuel max_scan_token_size i ipc (unread s) x k,
        left,
      )
      round o e (same_token [] t w k left) again = (
        returned ipc none,
        t.source,
        get_loop_blank net fuel i ipc s t e,
        value_loop_blank net fuel max_scan_token_size i ipc (unread s) (unread t) k,
        left,
      )
      round o e (same_token (c ∷ cs) t w k left) again =
          let shorter = token-shorter max_scan_token_size (unread s) (c ∷ cs) (unread t) (
            subst (Found max_scan_token_size (unread s)) k
              (scan-Found max_scan_token_size (unread s) (omega arith))) in
          on_line c cs t e k left (parse_line net i (c ∷ cs)) refl
            (λ kvs. again (i + 1) kvs t w (omega (arith, shorter, h)))

  -- `Value` through a scanner that reads ahead returns, on every buffer, what the lines of the
  -- buffer say, and leaves the rest of the buffer that the scanner has not read; a buffer that fits
  -- the scanner's first read is empty afterwards.
  read_all :
      (buf : Bytes)
      → (r : Returned) × (rest : Bytes) × (get_value net (record { buf = buf })
          ≡ some (r, record { buf = rest }))
        × (value net buf ≡ some r)
        × Left (new_scanner buf) rest
  unfolding value get_value
  read_all buf =
      let (r, rest, g, q, left) =
        get_loop-value_loop (length buf + 1) 0 [] (new_scanner buf)
          (record {
            bounded = omega arith;
            within = omega arith;
            at_end = λ e. absurd (ground arith);
            spare = λ e. omega arith;
          })
          (omega arith) in
      (r, rest, simp (g, get_value), q, left)

  -- An `IPCGet` that is used again without `Reset`: after a `Value` of at most 4096 bytes, whatever
  -- they are, the next `Value` returns what was written in between, as it does of a new `IPCGet`.
  pub get_value-write :
      (b c : Bytes)
      → length b ≤ start_buf_size
      → (r : Returned) × (g : IpcGet) × (get_value net (write (record { buf = [] }) b).0
          ≡ some (r, g))
        × (get_value net (write g c).0 ≡ get_value net (write (reset g) c).0)
  unfolding write reset
  get_value-write b c h =
      let (r, rest, e, q, left) = read_all b in
      let empty : rest ≡ [] = left.emptied (inr (refl, h)) in
      (r, record { buf = rest }, e, ap (λ x. get_value net (record { buf = x ++ c })) empty)
