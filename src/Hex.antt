-- ===== src/Hex.antt =====
-- Go's encoding/hex as the program calls it: `EncodeToString` and `Decode` into a slice of a given
-- length.
use mathlib.Core.Path.{subst}
use point_c.Base.{
  sym, ◌∙◌, Option-cases, inl, inr, All-append, length-append, ℕ, zero, suc, ◌+◌, ◌-◌, ◌*◌, ◌/◌,
  ◌%◌, ◌≤◌, ◌<◌, ◌≡◌, refl, ◌&&◌, Option, none, some, [], ◌∷◌, ◌++◌, arith, ltb, leb, if◌then◌else◌,
  Bytes, codes, Result, ok, err, panic, new, errorf, num, All, Lacks, length, append_assoc,
  append-nil,
}

-- A letter of `hextable`.
hex_digit : ℕ → ℕ
hex_digit d = if ltb d 10 then b'0' + d else b'a' + (d - 10)

-- `reverseHexTable`; `none` stands for its entries above 15.
hex_value : ℕ → Option ℕ
hex_value c =
    if leb b'0' c && leb c b'9'
    then some (c - b'0')
    else if leb b'a' c && leb c b'f'
    then some (c - b'a' + 10)
    else if leb b'A' c && leb c b'F'
    then some (c - b'A' + 10)
    else none

-- `hex.EncodeToString`.
unfoldable pub encode_to_string : Bytes → Bytes
unfolding hex_digit
encode_to_string [] = []
encode_to_string (b ∷ bs) = hex_digit (b / 16) ∷ hex_digit (b % 16) ∷ encode_to_string bs

invalid_byte : ℕ → Result Bytes
invalid_byte c = err (errorf "encoding/hex: invalid byte: %#U" (num c ∷ []))

-- An odd last byte is an error in every case.
odd_end : ℕ → Option ℕ → Result Bytes
unfolding invalid_byte
odd_end c none = invalid_byte c
odd_end c (some _) = err (new "encoding/hex: odd length hex string")

-- One round writes `dst[i]`, which panics when the destination is full.
write_byte : ℕ → Option ℕ → ℕ → Option ℕ → ℕ → Bytes → Result Bytes
unfolding invalid_byte
write_byte p none q b room out = invalid_byte p
write_byte p (some a) q none room out = invalid_byte q
write_byte p (some a) q (some b) zero out = panic
write_byte p (some a) q (some b) (suc room) out = ok (out ++ (a * 16 + b) ∷ [])

-- The loop of `hex.Decode`: the bytes written so far, and the room that is left behind them.
decode_loop : Bytes → ℕ → Bytes → Result Bytes
decode_loop [] room out = ok out
decode_loop (p ∷ []) room out = odd_end p (hex_value p)
decode_loop (p ∷ q ∷ s) room out = elim (write_byte p (hex_value p) q (hex_value q) room out) [
  | ok out' ↦ decode_loop s (room - 1) out'
  | err e ↦ err e
  | panic ↦ panic
]

-- `hex.Decode(dst, src)` with `len(dst)` given; a success returns the bytes that it wrote.
unfoldable pub decode : ℕ → Bytes → Result Bytes
unfolding decode_loop hex_value odd_end write_byte
decode room s = decode_loop s room []

abbrev pub IsByte : ℕ → Type 0
IsByte b = b < 256

hex_value-hex_digit : (d : ℕ) → d < 16 → hex_value (hex_digit d) ≡ some d
unfolding hex_value hex_digit
hex_value-hex_digit d h = ground arith

decode_loop_step :
    (p q a b room : ℕ) (s out : Bytes)
    → hex_value p ≡ some a
    → hex_value q ≡ some b
    → decode_loop (p ∷ q ∷ s) (suc room) out ≡ decode_loop s room (out ++ (a * 16 + b) ∷ [])
unfolding decode_loop write_byte
decode_loop_step p q a b room s out ha hb = ground arith

decode_loop-encode :
    (bs : Bytes) (room : ℕ) (out : Bytes)
    → All IsByte bs
    → length bs ≤ room
    → decode_loop (encode_to_string bs) room out ≡ ok (out ++ bs)
unfolding encode_to_string
decode_loop-encode [] room out _ _ = unfold decode_loop in rw append-nil
decode_loop-encode (b ∷ bs) zero out _ h = absurd (omega arith)
decode_loop-encode (b ∷ bs) (suc room) out (hb, hbs) h =
    rw
      (
        decode_loop_step _ _ (b / 16) (b % 16) room _ out
            (hex_value-hex_digit (b / 16) (omega arith))
            (hex_value-hex_digit (b % 16) (omega arith)),
        decode_loop-encode bs room _ hbs (omega arith),
        append_assoc,
      )
      (ground arith)

-- A decoded text gives the bytes back, if the destination has room for them.
pub decode-encode_to_string :
    (bs : Bytes) (room : ℕ)
    → All IsByte bs
    → length bs ≤ room
    → decode room (encode_to_string bs) ≡ ok bs
unfolding decode
decode-encode_to_string bs room h r = decode_loop-encode bs room [] h r

pub length-encode_to_string : (bs : Bytes) → length (encode_to_string bs) ≡ 2 * length bs
unfolding encode_to_string
length-encode_to_string [] = refl
length-encode_to_string (b ∷ bs) = omega (arith, length-encode_to_string bs)

-- No byte of a hexadecimal text ends a line or splits a pair.
pub encode_to_string-Lacks :
    (bs : Bytes) → Lacks b'\n' (encode_to_string bs) × Lacks b'=' (encode_to_string bs)
unfolding encode_to_string hex_digit
encode_to_string-Lacks [] = (tt, tt)
encode_to_string-Lacks (b ∷ bs) = ground (arith, encode_to_string-Lacks bs)

-- Nor a byte below the digits.
pub encode_to_string-Lacks_mark : (c : ℕ) (bs : Bytes) → c < b'0' → Lacks c (encode_to_string bs)
unfolding encode_to_string hex_digit
encode_to_string-Lacks_mark c [] h = tt
encode_to_string-Lacks_mark c (b ∷ bs) h = ground (arith, encode_to_string-Lacks_mark c bs h)

decode_over : decode 1 (codes "0aFf") ≡ panic
unfolding decode
decode_over = refl

decode_case : decode 2 (codes "0aFf") ≡ ok (10 ∷ 255 ∷ [])
unfolding decode
decode_case = refl

hex_value-lt : (c d : ℕ) → hex_value c ≡ some d → d < 16
unfolding hex_value
hex_value-lt c d h = ground arith

decode_loop_sound :
    (s : Bytes) (room : ℕ) (out d : Bytes)
    → All IsByte out
    → decode_loop s room out ≡ ok d
    → All IsByte d × (length d ≤ length out + room)
unfolding decode_loop
decode_loop_sound [] room out d o h = let e : out ≡ d = cc in (subst (All IsByte) e o, ground arith)
decode_loop_sound (p ∷ []) room out d o h = unfold odd_end invalid_byte in ground arith
decode_loop_sound (p ∷ q ∷ s) zero out d o h = unfold write_byte invalid_byte in ground arith
decode_loop_sound (p ∷ q ∷ s) (suc room) out d o h = elim (Option-cases (hex_value p)) [
  | inl e ↦ unfold write_byte invalid_byte in ground arith
  | inr (a, ea) ↦ elim (Option-cases (hex_value q)) [
    | inl e ↦ unfold write_byte invalid_byte in ground arith
    | inr (b, eb) ↦
        let byte : a * 16 + b < 256 = omega (arith, hex_value-lt p a ea, hex_value-lt q b eb) in
        let rest =
          decode_loop_sound s room (out ++ (a * 16 + b) ∷ []) d
            (All-append IsByte out ((a * 16 + b) ∷ []) o (byte, tt))
            (sym (decode_loop_step p q a b room s out ea eb) ∙ h) in
        (rest.0, omega (arith, rest.1, length-append out ((a * 16 + b) ∷ [])))
  ]
]

-- What is decoded are bytes, and no more than the destination holds.
pub decode_sound :
    (room : ℕ) (s d : Bytes) → decode room s ≡ ok d → All IsByte d × (length d ≤ room)
unfolding decode
decode_sound room s d h =
    let (bytes, fits) = decode_loop_sound s room [] d tt h in (bytes, omega arith)

decode_loop-panic :
    (bs : Bytes) (room : ℕ) (out : Bytes)
    → All IsByte bs
    → room < length bs
    → decode_loop (encode_to_string bs) room out ≡ panic
unfolding encode_to_string
decode_loop-panic [] room out _ h = absurd (omega arith)
decode_loop-panic (b ∷ bs) zero out (hb, _) h =
    unfold decode_loop write_byte in
    ground (
      arith,
      hex_value-hex_digit (b / 16) (omega arith),
      hex_value-hex_digit (b % 16) (omega arith),
    )
decode_loop-panic (b ∷ bs) (suc room) out (hb, hbs) h =
    decode_loop_step _ _ (b / 16) (b % 16) room _ out (hex_value-hex_digit (b / 16) (omega arith))
      (hex_value-hex_digit (b % 16) (omega arith))
    ∙ decode_loop-panic bs room _ hbs (omega arith)

-- A text of more bytes than the destination holds is a panic.
pub decode-panic :
    (bs : Bytes) (room : ℕ)
    → All IsByte bs
    → room < length bs
    → decode room (encode_to_string bs) ≡ panic
unfolding decode
decode-panic bs room h r = decode_loop-panic bs room [] h r
