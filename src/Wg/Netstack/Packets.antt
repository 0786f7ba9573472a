-- ===== src/Wg/Netstack/Packets.antt =====
-- Packets pass `Read` and `Write` whole and in order.
use point_c.Base.{
  ℕ, zero, suc, ◌+◌, ◌/◌, ◌≤◌, ◌≡◌, ◌≢◌, ◌==◌, ==_iff, Bool-cases, refl, ap, ◌∙◌, some, List, [],
  ◌∷◌, ◌++◌, Bytes, ok, length, length-append, take, All, All-append, ◌⊎◌, inl, inr, arith,
  append-nil,
}
use point_c.Wg.Netstack.{
  packet, Injected, ipv4, ipv6, copy, copy_at, slice_from, read_packet, read, inject, write_all,
  write,
}

copy_lem :
    (dst src : Bytes)
    → (let (dst', n) = copy dst src in
        (n ≤ length src)
        × (n ≤ length dst)
        × ((n ≡ length src) ⊎ (n ≡ length dst))
        × (length dst' ≡ length dst)
        × (take n dst' ≡ take n src))
copy_lem [] src = (omega arith, omega arith, inr refl, refl, refl)
copy_lem (d ∷ dst) [] = (omega arith, omega arith, inl refl, refl, refl)
copy_lem (d ∷ dst) (s ∷ src) =
    let (a, b, c, l, t) = copy_lem dst src in
    (omega arith, omega arith, ground arith, ap suc l, ap (λ xs. s ∷ xs) t)

-- What `copy_at` leaves behind the offset.
abbrev Copied : ℕ → Bytes → Bytes → Bytes × ℕ → Type 0
Copied offset buf p (buf', n) =
    (n ≤ length p)
    × (offset + n ≤ length buf)
    × ((n ≡ length p) ⊎ (offset + n ≡ length buf))
    × (length buf' ≡ length buf)
    × (slice_from offset (take (offset + n) buf') ≡ some (take n p))

zero_plus : (n : ℕ) → 0 + n ≡ n
zero_plus n = omega arith

suc_plus : (m n : ℕ) → suc m + n ≡ suc (m + n)
suc_plus m n = omega arith

copy_at_lem :
    (offset : ℕ) (buf p : Bytes)
    → offset ≤ length buf
    → (r : Bytes × ℕ) × (copy_at offset buf p ≡ some r) × Copied offset buf p r
copy_at_lem zero buf p h =
    let (a, b, c, l, t) = copy_lem buf p in
    (copy buf p, refl, (a, omega arith, ground arith, l, rw (zero_plus (copy buf p).1) (ap some t)))
copy_at_lem (suc offset) [] p h = absurd (omega arith)
copy_at_lem (suc offset) (b ∷ buf) p h =
    let ((buf', n), e, (a, f, c, l, t)) = copy_at_lem offset buf p (omega arith) in
    ((b ∷ buf', n), rw e refl, (a, omega arith, ground arith, ap suc l, rw (suc_plus offset n) t))

read_copied :
    (offset : ℕ) (buf buf' p : Bytes) (bufs : List Bytes) (size n : ℕ) (sizes : List ℕ)
    → copy_at offset buf p ≡ some (buf', n)
    → read (packet p) (buf ∷ bufs) (size ∷ sizes) offset ≡ ok (buf' ∷ bufs, n ∷ sizes)
unfolding read
read_copied offset buf buf' p bufs size n sizes e = rw (e, read_packet)

write_all_step :
    (offset : ℕ) (buf p : Bytes) (bufs : List Bytes) (is : List Injected)
    → slice_from offset buf ≡ some p
    → write_all bufs offset ≡ ok is
    → write_all (buf ∷ bufs) offset ≡ ok (inject p ++ is)
unfolding write_all inject
write_all_step offset buf p bufs is e k = rw (e, k, write_all)

write_ok :
    (offset : ℕ) (bufs : List Bytes) (is : List Injected)
    → write_all bufs offset ≡ ok is
    → write bufs offset ≡ ok (is, length bufs)
unfolding write
write_ok offset bufs is k = rw (k, write)

write_all_nil : (offset : ℕ) → write_all [] offset ≡ ok []
unfolding write_all
write_all_nil offset = refl

-- The version of a packet, in the upper half of its first byte.
abbrev pub version : Bytes → ℕ
version [] = 0
version (b ∷ bs) = b / 16

-- What is injected of some bytes: these bytes as one packet of their version, or nothing if they have
-- neither.
abbrev pub Injects : Bytes → List Injected → Type 0
Injects p [] = (version p ≢ 4) × (version p ≢ 6)
Injects p (ipv4 q ∷ []) = (version p ≡ 4) × (q ≡ p)
Injects p (ipv6 q ∷ []) = (version p ≡ 6) × (q ≡ p)
Injects p (_ ∷ _ ∷ _) = ⊥

inject-Injects : (p : Bytes) → Injects p (inject p)
unfolding inject
inject-Injects [] = (λ h. ground arith, λ h. ground arith)
inject-Injects (b ∷ bs) = elim (Bool-cases (b / 16 == 4)) [
  | inl e ↦ simp e ((==_iff (b / 16) 4).0 e, refl)
  | inr e ↦ elim (Bool-cases (b / 16 == 6)) [
    | inl f ↦ simp (e, f) ((==_iff (b / 16) 6).0 f, refl)
    | inr f ↦ simp (e, f) (λ h. ground arith, λ h. ground arith)
  ]
]

-- `Read` into a buffer that the offset does not pass, with room for a size: it stores as much of the
-- packet as the buffer holds, and reports how much. When the buffer is then written, up to there and at the same
-- offset, `Write` reports one packet. It injects exactly these bytes, as an IPv4 packet if the upper
-- half of the first byte is 4 and as an IPv6 packet if it is 6, and nothing if there are no bytes or
-- it is neither.
pub write-read :
    (offset : ℕ) (buf : Bytes) (bufs : List Bytes) (size : ℕ) (sizes : List ℕ) (p : Bytes)
    → offset ≤ length buf
    → (buf' : Bytes) × (n : ℕ) × (read (packet p) (buf ∷ bufs) (size ∷ sizes) offset
        ≡ ok (buf' ∷ bufs, n ∷ sizes))
      × (n ≤ length p)
      × ((n ≡ length p) ⊎ (offset + n ≡ length buf))
      × (length buf' ≡ length buf)
      × ((injected : List Injected) × (write (take (offset + n) buf' ∷ []) offset
            ≡ ok (injected, 1))
          × Injects (take n p) injected)
write-read offset buf bufs size sizes p h =
    let ((buf', n), e, c) = copy_at_lem offset buf p h in
    let (fits, within, full, l, s) = c in
    (
      buf',
      n,
      read_copied offset buf buf' p bufs size n sizes e,
      fits,
      full,
      l,
      (
        inject (take n p),
        write_ok offset (take (offset + n) buf' ∷ []) (inject (take n p)) (
            write_all_step offset (take (offset + n) buf') (take n p) [] [] s (write_all_nil offset)
            ∙ rw append-nil),
        inject-Injects (take n p),
      ),
    )

-- An injected packet has the version of its protocol number.
abbrev pub HasVersion : Injected → Type 0
HasVersion (ipv4 (b ∷ bs)) = b / 16 ≡ 4
HasVersion (ipv6 (b ∷ bs)) = b / 16 ≡ 6
HasVersion (ipv4 []) = ⊥
HasVersion (ipv6 []) = ⊥

inject-HasVersion : (p : Bytes) → All HasVersion (inject p) × (length (inject p) ≤ 1)
unfolding inject
inject-HasVersion [] = (tt, omega arith)
inject-HasVersion (b ∷ buf) = ground arith

slice_from_within :
    (offset : ℕ) (buf : Bytes)
    → offset ≤ length buf
    → (p : Bytes) × (slice_from offset buf ≡ some p)
slice_from_within zero buf h = (buf, refl)
slice_from_within (suc offset) [] h = absurd (omega arith)
slice_from_within (suc offset) (b ∷ buf) h = slice_from_within offset buf (omega arith)

write_all-HasVersion :
    (bufs : List Bytes) (offset : ℕ)
    → All (λ buf. offset ≤ length buf) bufs
    → (is : List Injected) × (write_all bufs offset ≡ ok is)
      × All HasVersion is
      × (length is ≤ length bufs)
unfolding write_all
write_all-HasVersion [] offset h = ([], refl, tt, omega arith)
write_all-HasVersion (buf ∷ bufs) offset (h, hs) =
    let (p, e) = slice_from_within offset buf h in
    let (is, k, v, l) = write_all-HasVersion bufs offset hs in
    let (w, m) = inject-HasVersion p in
    (
      inject p ++ is,
      write_all_step offset buf p bufs is e k,
      All-append HasVersion (inject p) is w v,
      omega (arith, length-append (inject p) is),
    )

-- `Write` of packets that are no shorter than the offset reports all of them as written. It injects
-- at most one for each, under the protocol of its version.
pub write-HasVersion :
    (bufs : List Bytes) (offset : ℕ)
    → All (λ buf. offset ≤ length buf) bufs
    → (is : List Injected) × (write bufs offset ≡ ok (is, length bufs))
      × All HasVersion is
      × (length is ≤ length bufs)
write-HasVersion bufs offset h =
    let (is, k, v, l) = write_all-HasVersion bufs offset h in (is, write_ok offset bufs is k, v, l)
