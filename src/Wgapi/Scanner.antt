-- ===== src/Wgapi/Scanner.antt =====
-- pkg/wg/wgapi/internal/parser/scanner.go, and Go's bufio.Scanner around it.
use mathlib.Core.Path.{subst}
use point_c.Base.{
  ◌≤◌, ap, Option-cases, Bool-cases, cut_sound, length-append, append_assoc, sym, ◌∙◌, inl, inr, ℕ,
  zero, suc, ◌+◌, ◌-◌, ◌<◌, ◌≡◌, refl, Bool, true, false, Option, none, some, [], ◌∷◌, ◌++◌, arith,
  ltb, if◌then◌else◌, Bytes, codes, GoError, new, length, take, drop, cut, cut-append, Lacks,
}

-- What a bufio.SplitFunc returns.
pub record Split : Type 0 where
  pub advance : ℕ
  pub token : Option Bytes
  pub error : Option GoError

abbrev pub malformed : GoError
malformed = new "malformed input, no blank line at end of input"

abbrev pub too_long : GoError
too_long = new "bufio.Scanner: token too long"

-- `ScanLines` behind its first test, on the result of searching for the newline.
scan_lines_at : Option (Bytes × Bytes) → Bool → Split
scan_lines_at (some (line, rest)) at_eof = record {
  advance = length line + 1;
  token = some line;
  error = none;
}
scan_lines_at none true = record { advance = 0; token = none; error = some malformed }
scan_lines_at none false = record { advance = 0; token = none; error = none }

-- `ScanLines(data, atEOF)`.
unfoldable pub scan_lines : Bytes → Bool → Split
unfolding scan_lines_at
scan_lines [] true = record { advance = 0; token = none; error = none }
scan_lines [] false = scan_lines_at (cut b'\n' []) false
scan_lines (c ∷ s) at_eof = scan_lines_at (cut b'\n' (c ∷ s)) at_eof

-- The outcome of one `Scanner.Scan`: a token and the input behind it, or the end with
-- `Scanner.Err`.
pub data Scanned : Type 0 where
  token : Bytes → Bytes → Scanned
  stop : Option GoError → Scanned

-- Without a token the scanner stops: with the split function's error, or at the end of the input,
-- or with `ErrTooLong` when its buffer is full.
scanned : Bytes → Bool → Split → Scanned
scanned input at_eof s = elim s.error [
  | some e ↦ stop (some e)
  | none ↦ elim s.token [
    | some line ↦ token line (drop s.advance input)
    | none ↦ if at_eof then stop none else stop (some too_long)
  ]
]

-- `Scanner.Scan` over input that is all there. The scanner offers the split function growing pieces
-- of the input, of `limit` bytes at most; `ScanLines` answers to each but the last with a request
-- for more, or with the line that it finds in the last too.
unfoldable pub scan : ℕ → Bytes → Scanned
unfolding scanned
scan limit input =
    let at_eof = ltb (length input) limit in
    scanned input at_eof (scan_lines (take limit input) at_eof)

two_lines : scan 8 (codes "ab\ncd\n") ≡ token (codes "ab") (codes "cd\n")
unfolding scan scan_lines cut
two_lines = refl

no_newline : scan 8 (codes "abcd") ≡ stop (some malformed)
unfolding scan scan_lines cut
no_newline = refl

long_line : scan 4 (codes "abcd\n") ≡ stop (some too_long)
unfolding scan scan_lines cut
long_line = refl

at_end : scan 4 [] ≡ stop none
unfolding scan scan_lines cut
at_end = refl

take_line :
    (n : ℕ) (a b : Bytes) (c : ℕ)
    → length a < n
    → take n (a ++ c ∷ b) ≡ a ++ c ∷ take (n - length a - 1) b
take_line zero a b c h = absurd (omega arith)
take_line (suc n) [] b c h = ground arith
take_line (suc n) (x ∷ a) b c h = ground (arith, take_line n a b c)

pub drop_line : (a b : Bytes) (c : ℕ) → drop (length a + 1) (a ++ c ∷ b) ≡ b
drop_line [] b c = refl
drop_line (x ∷ a) b c = ground (arith, drop_line a b c)

pub scan_lines-line :
    (line rest : Bytes) (at_eof : Bool)
    → Lacks b'\n' line
    → scan_lines (line ++ b'\n' ∷ rest) at_eof
      ≡ record { advance = length line + 1; token = some line; error = none }
unfolding scan_lines
scan_lines-line [] rest at_eof l = rw (cut-append b'\n' [] rest l)
scan_lines-line (c ∷ line) rest at_eof l = rw (cut-append b'\n' (c ∷ line) rest l)

-- Without a newline the split function fails at the end of the input, and asks for more in front of
-- it.
pub scan_lines_end :
    (c : ℕ) (s : Bytes)
    → cut b'\n' (c ∷ s) ≡ none
    → scan_lines (c ∷ s) true ≡ record { advance = 0; token = none; error = some malformed }
unfolding scan_lines
scan_lines_end c s e = rw e

pub scan_lines_more :
    (c : ℕ) (s : Bytes)
    → cut b'\n' (c ∷ s) ≡ none
    → scan_lines (c ∷ s) false ≡ record { advance = 0; token = none; error = none }
unfolding scan_lines
scan_lines_more c s e = rw e

-- A line that fits the scanner's buffer with its newline is the next token.
pub scan-line :
    (limit : ℕ) (line rest : Bytes)
    → Lacks b'\n' line
    → length line < limit
    → scan limit (line ++ b'\n' ∷ rest) ≡ token line rest
unfolding scan
scan-line limit line rest l h =
    rw (take_line limit line rest b'\n' h, scan_lines-line line _ _ l, drop_line line rest b'\n')

-- At the end of the input the scanner stops with no error.
pub scan-nil : (limit : ℕ) → 0 < limit → scan limit [] ≡ stop none
unfolding scan scan_lines
scan-nil zero h = absurd (omega arith)
scan-nil (suc limit) h = ground arith

-- What the scanner found, in terms of the whole input.
pub data Found (limit : ℕ) (input : Bytes) : Scanned → Type 0 where
  line :
      (l rest : Bytes)
      → Lacks b'\n' l
      → length l < limit
      → input ≡ l ++ b'\n' ∷ rest
      → Found limit input (token l rest)
  ended : input ≡ [] → Found limit input (stop none)
  unterminated : Lacks b'\n' input → 0 < length input → Found limit input (stop (some malformed))
  overlong :
      Lacks b'\n' (take limit input)
      → limit ≤ length input
      → Found limit input (stop (some too_long))

pub length-take-le : (n : ℕ) (xs : Bytes) → length (take n xs) ≤ n
length-take-le zero xs = omega arith
length-take-le (suc n) [] = omega arith
length-take-le (suc n) (x ∷ xs) = omega (arith, length-take-le n xs)

pub take_all : (n : ℕ) (xs : Bytes) → length xs ≤ n → take n xs ≡ xs
take_all zero [] h = refl
take_all zero (x ∷ xs) h = absurd (omega arith)
take_all (suc n) [] h = refl
take_all (suc n) (x ∷ xs) h = ap (◌∷◌ x) (take_all n xs (omega arith))

pub take-append-drop : (n : ℕ) (xs : Bytes) → take n xs ++ drop n xs ≡ xs
take-append-drop zero xs = refl
take-append-drop (suc n) [] = refl
take-append-drop (suc n) (x ∷ xs) = ap (◌∷◌ x) (take-append-drop n xs)

-- A newline that is not in the first `limit` bytes.
cut-none : (sep : ℕ) (s : Bytes) → cut sep s ≡ none → Lacks sep s
unfolding cut
cut-none sep [] h = tt
cut-none sep (c ∷ s) h = ground (arith, cut-none sep s, Option-cases (cut sep s))

pub scan_short :
    (n c : ℕ) (s : Bytes)
    → cut b'\n' (take (suc n) (c ∷ s)) ≡ none
    → ltb (length (c ∷ s)) (suc n) ≡ true
    → scan (suc n) (c ∷ s) ≡ stop (some malformed)
unfolding scan scan_lines
scan_short n c s e short = rw (short, e)

pub scan_full :
    (n c : ℕ) (s : Bytes)
    → cut b'\n' (take (suc n) (c ∷ s)) ≡ none
    → ltb (length (c ∷ s)) (suc n) ≡ false
    → scan (suc n) (c ∷ s) ≡ stop (some too_long)
unfolding scan scan_lines
scan_full n c s e full = rw (full, e)

scan-none :
    (limit : ℕ) (input : Bytes)
    → 0 < limit
    → cut b'\n' (take limit input) ≡ none
    → Found limit input (scan limit input)
scan-none zero input pos e = absurd (omega arith)
scan-none (suc n) [] pos e = rw (scan-nil (suc n) pos) (ended refl)
scan-none (suc n) (c ∷ s) pos e = elim (Bool-cases (ltb (length (c ∷ s)) (suc n))) [
  | inl short ↦ rw (scan_short n c s e short) (
      unterminated (subst (Lacks b'\n') (take_all (suc n) (c ∷ s) (ground arith)) (cut-none _ _ e))
        (omega arith))
  | inr full ↦ rw (scan_full n c s e full) (overlong (cut-none _ _ e) (ground arith))
]

-- The scanner's answer, for every input and a buffer that is not empty: the first line, if it fits
-- with its newline; nothing at the end; and one of two errors if no newline comes in time.
pub scan-Found : (limit : ℕ) (input : Bytes) → 0 < limit → Found limit input (scan limit input)
scan-Found limit input pos = elim (Option-cases (cut b'\n' (take limit input))) [
  | inl e ↦ scan-none limit input pos e
  | inr ((a, b), e) ↦
      let (split, lacks) = cut_sound b'\n' (take limit input) a b e in
      let whole : input ≡ a ++ b'\n' ∷ (b ++ drop limit input) =
        sym (take-append-drop limit input) ∙ rw split (append_assoc a (b'\n' ∷ b) _) in
      let fits : length a < limit =
        omega (arith, ap length split, length-append a (b'\n' ∷ b), length-take-le limit input) in
      rw (ap (scan limit) whole ∙ scan-line limit a (b ++ drop limit input) lacks fits)
        (line a (b ++ drop limit input) lacks fits whole)
]
