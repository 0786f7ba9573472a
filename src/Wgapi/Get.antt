-- ===== src/Wgapi/Get.antt =====
-- pkg/wg/wgapi/parser.go, `IPCGet`: its buffer, and `Value`, which reads it through a bufio.Scanner
-- that reads ahead.
pub mod Growing
pub mod Filling
pub mod Offering
pub mod Scanning
pub mod Reading
use point_c.Base.{
  ℕ, zero, suc, ◌+◌, ◌-◌, ◌*◌, ◌/◌, Bool, true, false, not, ◌&&◌, ◌||◌, Option, none, some, List,
  [], ◌∷◌, ◌++◌, Bytes, GoError, length, take, drop, ltb, leb, ◌==◌, if◌then◌else◌,
}
use point_c.Wgapi.Addr.{AddrText}
use point_c.Wgapi.Scanner.{Split, scan_lines, too_long}
use point_c.Wgapi.Ipc.{
  Ipc, Returned, returned, panicked, LineResult, parsed, failed, line_panic, parse_line,
  max_scan_token_size,
}

-- The size of the first buffer that a scanner makes.
abbrev pub start_buf_size : ℕ
start_buf_size = 4096

-- A bufio.Scanner: the size of its buffer, where the bytes begin in it that are not yet taken,
-- these bytes, whether the source has ended, and the bytes that are still in the source.
pub record LineScanner : Type 0 where
  pub size : ℕ
  pub start : ℕ
  pub held : Bytes
  pub ended : Bool
  pub source : Bytes

-- `bufio.NewScanner`.
abbrev pub new_scanner : Bytes → LineScanner
new_scanner input = record { size = 0; start = 0; held = []; ended = false; source = input }

-- What the split function makes of the bytes at hand: a token, the end, or a request for more.
pub data Offered : Type 0 where
  took : Bytes → LineScanner → Offered
  halt : Option GoError → Offered
  more : Offered

offered : LineScanner → Split → Offered
offered s sp = elim sp.error [
  | some e ↦ halt (some e)
  | none ↦ elim sp.token [
    | some line ↦
        took line (record s { start = s.start + sp.advance; held = drop sp.advance s.held })
    | none ↦ if s.ended then halt none else more
  ]
]

abbrev is_empty : Bytes → Bool
is_empty [] = true
is_empty (c ∷ cs) = false

-- The split function is not called while there is nothing to split and there may be more.
unfoldable pub offer : LineScanner → Offered
unfolding offered
offer s = if is_empty s.held && not s.ended then more else offered s (scan_lines s.held s.ended)

-- The bytes are moved to the front of a buffer that is full or mostly taken.
unfoldable pub shift : LineScanner → LineScanner
shift s =
    if ltb 0 s.start && ((s.start + length s.held == s.size) || ltb (s.size / 2) s.start)
    then record s { start = 0 }
    else s

-- The size of the next buffer: twice the last one, and at most the maximum.
abbrev pub grown_size : ℕ → ℕ
grown_size size =
    let twice = if size == 0 then start_buf_size else size * 2 in
    if leb twice max_scan_token_size then twice else max_scan_token_size

-- A full buffer is replaced, unless it has the maximal size.
unfoldable pub grow : LineScanner → Option LineScanner
grow s =
    if s.start + length s.held == s.size
    then (if leb max_scan_token_size s.size
        then none
        else some (record s { size = grown_size s.size; start = 0 }))
    else some s

-- `bytes.Buffer.Read` into the rest of the buffer.
unfoldable pub read_more : LineScanner → LineScanner
read_more s = elim s.source [
  | [] ↦ record s { ended = true }
  | c ∷ cs ↦
      let room = s.size - (s.start + length s.held) in
      record s { held = s.held ++ take room (c ∷ cs); source = drop room (c ∷ cs) }
]

-- More bytes for the split function; none where the buffer has its maximal size and is full.
unfoldable pub fill : LineScanner → Option LineScanner
unfolding shift grow read_more
fill s = elim (grow (shift s)) [ none ↦ none | some s' ↦ some (read_more s') ]

-- What `Scanner.Scan` returns: a token, or the end with `Scanner.Err` and what is left in the
-- source.
pub data Scan : Type 0 where
  found : Bytes → LineScanner → Scan
  finished : Option GoError → Bytes → Scan

-- `Scanner.Scan`, with fuel for its loop.
unfoldable pub scan_next : ℕ → LineScanner → Option Scan
unfolding offer fill
scan_next zero s = none
scan_next (suc fuel) s =
    let read : Option Scan = elim (fill s) [
      | none ↦ some (finished (some too_long) s.source)
      | some s' ↦ scan_next fuel s'
    ] in
    elim (offer s) [
      | took line s' ↦ some (found line s')
      | halt e ↦ some (finished e s.source)
      | more ↦ read
    ]

-- The number of reads that can follow: each takes a byte from the source, or finds its end.
abbrev pub weight : LineScanner → ℕ
weight s = length s.source + (if s.ended then 0 else 1)

module _ (net : AddrText) where
  -- The loop of `Value`, at line `i` with the list so far: what it returns, and what is left in the
  -- source.
  unfoldable pub get_loop : ℕ → ℕ → Ipc → LineScanner → Option (Returned × Bytes)
  unfolding scan_next
  get_loop zero i ipc s = none
  get_loop (suc fuel) i ipc s = elim (scan_next (weight s + 1) s) [
    | none ↦ none
    | some (finished e rest) ↦ some (returned ipc e, rest)
    | some (found [] s') ↦ some (returned ipc none, s'.source)
    | some (found (c ∷ cs) s') ↦ elim (parse_line net i (c ∷ cs)) [
      | failed e ↦ some (returned [] (some e), s'.source)
      | line_panic ↦ some (panicked, s'.source)
      | parsed kv ↦ get_loop fuel (i + 1) (ipc ++ kv ∷ []) s'
    ]
  ]

-- `IPCGet`.
pub record IpcGet : Type 0 where
  pub buf : Bytes

-- `IPCGet.Write`, which never fails.
unfoldable pub write : IpcGet → Bytes → IpcGet × ℕ × Option GoError
write g b = (record { buf = g.buf ++ b }, length b, none)

-- `IPCGet.Reset`.
unfoldable pub reset : IpcGet → IpcGet
reset g = record { buf = [] }

-- `IPCGet.Value`.
unfoldable pub get_value : AddrText → IpcGet → Option (Returned × IpcGet)
unfolding get_loop
get_value net g = elim (get_loop net (length g.buf + 1) 0 [] (new_scanner g.buf)) [
  | none ↦ none
  | some (r, rest) ↦ some (r, record { buf = rest })
]
