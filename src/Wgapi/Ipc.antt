-- ===== src/Wgapi/Ipc.antt =====
-- pkg/wg/wgapi/api.go and parser.go: an `IPC` is printed by `WGConfig` and read by `IPCGet.Value`.
pub mod Print
pub mod Total
pub mod RoundTrip
pub mod Reparse
pub mod Panics
use point_c.Base.{
  ℕ, zero, suc, ◌+◌, ◌*◌, ◌≡◌, refl, Bool, Option, none, some, List, [], ◌∷◌, ◌++◌, Bytes, codes,
  Result, ok, err, panic, GoError, errorf, wrapf, text, num, length, cut, arith,
}
use point_c.Wgapi.Key.{KeyName}
use point_c.Wgapi.Addr.{AddrText}
use point_c.Wgapi.Value.{IpcKeyValue, kv_key, kv_string}
use point_c.Wgapi.Scanner.{scan, Scanned, token, stop}
use point_c.Wgapi.Parser.{parser, lookup_parser}

abbrev pub Ipc : Type 0
Ipc = List IpcKeyValue

-- What `Value` returns: the list and the error, both of which may be set; or a panic.
pub data Returned : Type 0 where
  returned : Ipc → Option GoError → Returned
  panicked : Returned

-- `bufio.MaxScanTokenSize`, the size that the scanner's buffer does not pass.
abbrev pub max_scan_token_size : ℕ
max_scan_token_size = 64 * 1024

-- The body of the loop for one line that is not empty.
pub data LineResult : Type 0 where
  parsed : IpcKeyValue → LineResult
  failed : GoError → LineResult
  line_panic : LineResult

module _ (net : AddrText) where
  -- The loop of `IPC.WGConfig`, at the buffer written so far.
  write_all : Ipc → Bytes → Bytes
  write_all [] buf = buf
  write_all (e ∷ ir) buf =
      write_all ir (((buf ++ kv_key e) ++ b'=' ∷ []) ++ kv_string net e ++ b'\n' ∷ [])

  -- `IPC.WGConfig`.
  unfoldable pub wg_config : Ipc → Bytes
  unfolding write_all
  wg_config ir = write_all ir []

  -- The result of the parser that the table has for the key.
  parsed_value : ℕ → Bytes → Result IpcKeyValue → LineResult
  parsed_value i k (ok kv) = parsed kv
  parsed_value i k (err e) =
      failed (wrapf "failed to parse %q on line %d, %w" (text k ∷ num i ∷ []) e)
  parsed_value i k panic = line_panic

  pub parse_pair : ℕ → Bytes → Bytes → Option KeyName → LineResult
  unfolding parsed_value
  parse_pair i k v none =
      failed (errorf "line %d malformed, key %q is not valid" (num i ∷ text k ∷ []))
  parse_pair i k v (some name) = parsed_value i k (parser net name v)

  parse_cut : ℕ → Bytes → Option (Bytes × Bytes) → LineResult
  unfolding parse_pair
  parse_cut i line none =
      failed (errorf "line %d malformed, expected key=value, got %q" (num i ∷ text line ∷ []))
  parse_cut i line (some (k, v)) = parse_pair i k v (lookup_parser k)

  -- The loop body, from `bytes.Cut` on, at line `i`.
  unfoldable pub parse_line : ℕ → Bytes → LineResult
  unfolding parse_cut
  parse_line i line = parse_cut i line (cut b'=' line)

  -- The loop of `Value`, at line `i` with the list so far; without a rest of fuel there is no
  -- result.
  pub value_loop : ℕ → ℕ → ℕ → Ipc → Bytes → Option Returned
  value_loop zero limit i ipc input = none
  value_loop (suc fuel) limit i ipc input = elim (scan limit input) [
    | stop e ↦ some (returned ipc e)
    | token [] rest ↦ some (returned ipc none)
    | token (c ∷ cs) rest ↦ elim (parse_line i (c ∷ cs)) [
      | failed e ↦ some (returned [] (some e))
      | line_panic ↦ some panicked
      | parsed kv ↦ value_loop fuel limit (i + 1) (ipc ++ kv ∷ []) rest
    ]
  ]

  -- `IPCGet.Value` on the bytes that were written. Every round takes a byte at least.
  unfoldable pub value : Bytes → Option Returned
  unfolding value_loop
  value input = value_loop (length input + 1) max_scan_token_size 0 [] input

  -- One round of the loop, for each outcome of the scanner and of the line.
  module _ (fuel limit i : ℕ) (ipc : Ipc) (input : Bytes) where
    pub value_loop_stop :
        (e : Option GoError)
        → scan limit input ≡ stop e
        → value_loop (suc fuel) limit i ipc input ≡ some (returned ipc e)
    unfolding value_loop
    value_loop_stop e s = ground arith

    pub value_loop_blank :
        (rest : Bytes)
        → scan limit input ≡ token [] rest
        → value_loop (suc fuel) limit i ipc input ≡ some (returned ipc none)
    unfolding value_loop
    value_loop_blank rest s = ground arith

    pub value_loop_parsed :
        (c : ℕ) (cs rest : Bytes) (kv : IpcKeyValue)
        → scan limit input ≡ token (c ∷ cs) rest
        → parse_line i (c ∷ cs) ≡ parsed kv
        → value_loop (suc fuel) limit i ipc input
          ≡ value_loop fuel limit (i + 1) (ipc ++ kv ∷ []) rest
    unfolding value_loop
    value_loop_parsed c cs rest kv s p = ground arith

    pub value_loop_failed :
        (c : ℕ) (cs rest : Bytes) (e : GoError)
        → scan limit input ≡ token (c ∷ cs) rest
        → parse_line i (c ∷ cs) ≡ failed e
        → value_loop (suc fuel) limit i ipc input ≡ some (returned [] (some e))
    unfolding value_loop
    value_loop_failed c cs rest e s p = ground arith

    pub value_loop_panic :
        (c : ℕ) (cs rest : Bytes)
        → scan limit input ≡ token (c ∷ cs) rest
        → parse_line i (c ∷ cs) ≡ line_panic
        → value_loop (suc fuel) limit i ipc input ≡ some panicked
    unfolding value_loop
    value_loop_panic c cs rest s p = ground arith
