-- ===== src/Wg/Netstack.antt =====
-- pkg/wg/netstack.go: how the device `Netstack` hands packets between WireGuard and the network
-- stack.
pub mod Packets
pub mod Lifecycle
pub mod Dial
pub mod Setup
use point_c.Base.{
  ℕ, zero, suc, ◌+◌, ◌/◌, ◌==◌, if◌then◌else◌, Option, none, some, List, [], ◌∷◌, ◌++◌, Bytes,
  Result, ok, err, panic, os_closed, length,
}

-- What the select of `Read` receives: `done` is closed, or a packet of the channel `read`.
pub data Received : Type 0 where
  done : Received
  packet : Bytes → Received

-- A packet injected into the endpoint, under the protocol number of its version.
pub data Injected : Type 0 where
  ipv4 : Bytes → Injected
  ipv6 : Bytes → Injected

-- `copy(dst, src)`: the destination, and how many bytes were copied.
abbrev pub copy : Bytes → Bytes → Bytes × ℕ
copy [] src = ([], 0)
copy (d ∷ dst) [] = (d ∷ dst, 0)
copy (d ∷ dst) (s ∷ src) = let (rest, n) = copy dst src in (s ∷ rest, suc n)

-- `copy(buf[offset:], p)`: the whole buffer, and how many bytes were copied; `none` where the
-- offset is behind the buffer, and the slice expression panics.
abbrev pub copy_at : ℕ → Bytes → Bytes → Option (Bytes × ℕ)
copy_at zero buf p = some (copy buf p)
copy_at (suc offset) [] p = none
copy_at (suc offset) (b ∷ buf) p = elim (copy_at offset buf p) [
  | none ↦ none
  | some (rest, n) ↦ some (b ∷ rest, n)
]

-- `buf[offset:]`.
abbrev pub slice_from : ℕ → Bytes → Option Bytes
slice_from zero buf = some buf
slice_from (suc offset) [] = none
slice_from (suc offset) (b ∷ buf) = slice_from offset buf

read_packet : Bytes → List Bytes → List ℕ → ℕ → Result (List Bytes × List ℕ)
read_packet p [] sizes offset = panic
read_packet p (buf ∷ bufs) [] offset = panic
read_packet p (buf ∷ bufs) (size ∷ sizes) offset = elim (copy_at offset buf p) [
  | none ↦ panic
  | some (buf', n) ↦ ok (buf' ∷ bufs, n ∷ sizes)
]

-- `Netstack.Read`: the buffers and the sizes; the number of packets is 1.
unfoldable pub read : Received → List Bytes → List ℕ → ℕ → Result (List Bytes × List ℕ)
unfolding read_packet
read done bufs sizes offset = err os_closed
read (packet p) bufs sizes offset = read_packet p bufs sizes offset

-- The switch of `Write` on the version of a packet.
unfoldable pub inject : Bytes → List Injected
inject [] = []
inject (b ∷ buf) =
    if b / 16 == 4 then ipv4 (b ∷ buf) ∷ [] else if b / 16 == 6 then ipv6 (b ∷ buf) ∷ [] else []

-- The loop of `Write`.
write_all : List Bytes → ℕ → Result (List Injected)
unfolding inject
write_all [] offset = ok []
write_all (buf ∷ bufs) offset = elim (slice_from offset buf) [
  | none ↦ panic
  | some p ↦ elim (write_all bufs offset) [
    | ok is ↦ ok (inject p ++ is)
    | err e ↦ err e
    | panic ↦ panic
  ]
]

-- `Netstack.Write`: what was injected, and the number of packets that it returns.
unfoldable pub write : List Bytes → ℕ → Result (List Injected × ℕ)
unfolding write_all
write bufs offset = elim (write_all bufs offset) [
  | ok is ↦ ok (is, length bufs)
  | err e ↦ err e
  | panic ↦ panic
]
