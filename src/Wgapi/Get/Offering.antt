-- ===== src/Wgapi/Get/Offering.antt =====
-- The scanner of `IPCGet.Value`: what the split function makes of the bytes at hand, and what it
-- would make of all bytes.
use point_c.Base.{
  ℕ, ◌+◌, ◌<◌, ◌≡◌, refl, ap, ◌∙◌, inl, inr, true, false, Option, none, some, [], ◌∷◌, ◌++◌, Bytes,
  GoError, length, drop, cut, cut_sound, Lacks, Bool-cases, Option-cases, List-cases, arith,
  length-append, append_assoc, append-nil,
}
use point_c.Wgapi.Ipc.{max_scan_token_size}
use point_c.Wgapi.Scanner.{
  scan, token, stop, scan_lines, malformed, scan-line, scan-nil, scan_lines-line, scan_lines_end,
  scan_lines_more, drop_line, scan_short, take_all,
}
use point_c.Wgapi.Get.{LineScanner, Offered, took, halt, more, offer}
use point_c.Wgapi.Get.Growing.{Fits}

-- All bytes that are not yet taken.
abbrev pub unread : LineScanner → Bytes
unread s = s.held ++ s.source

pub data Answer (s : LineScanner) : Offered → Type 0 where
  line :
      (l : Bytes) (t : LineScanner)
      → Fits t
      → scan max_scan_token_size (unread s) ≡ token l (unread t)
      → t.source ≡ s.source
      → 0 < length s.held
      → Answer s (took l t)
  over :
      (e : Option GoError)
      → scan max_scan_token_size (unread s) ≡ stop e
      → s.ended ≡ true
      → Answer s (halt e)
  wanting : s.ended ≡ false → cut b'\n' s.held ≡ none → Answer s more

offer-end : (s : LineScanner) → s.held ≡ [] → s.ended ≡ true → offer s ≡ halt none
unfolding offer scan_lines
offer-end s q e = simp (q, e, offer)

offer-wait : (s : LineScanner) → s.held ≡ [] → s.ended ≡ false → offer s ≡ more
unfolding offer
offer-wait s q e = simp (q, e, offer)

offer-Answer_nil : (s : LineScanner) → Fits s → s.held ≡ [] → Answer s (offer s)
unfolding cut
offer-Answer_nil s v q = elim (Bool-cases s.ended) [
  | inl e ↦ rw (offer-end s q e) (
      over none
        (ap (scan max_scan_token_size) (ap (λ l. l ++ s.source) q ∙ v.at_end e)
          ∙ scan-nil max_scan_token_size (omega arith))
        e)
  | inr e ↦ rw (offer-wait s q e) (wanting e (ap (cut b'\n') q))
]

module _ (s : LineScanner) (c : ℕ) (cs : Bytes) (v : Fits s) (q : s.held ≡ c ∷ cs) where
  offer-malformed : cut b'\n' (c ∷ cs) ≡ none → s.ended ≡ true → offer s ≡ halt (some malformed)
  unfolding offer
  offer-malformed n e = simp (q, e, scan_lines_end c cs n, offer)

  offer-more : cut b'\n' (c ∷ cs) ≡ none → s.ended ≡ false → offer s ≡ more
  unfolding offer
  offer-more n e = simp (q, e, scan_lines_more c cs n, offer)

  split_line :
      (a b : Bytes)
      → Lacks b'\n' a
      → c ∷ cs ≡ a ++ b'\n' ∷ b
      → scan_lines (c ∷ cs) s.ended
        ≡ record { advance = length a + 1; token = some a; error = none }
  split_line a b l e = ap (λ t. scan_lines t s.ended) e ∙ scan_lines-line a b s.ended l

  offer-took :
      (a b : Bytes)
      → Lacks b'\n' a
      → c ∷ cs ≡ a ++ b'\n' ∷ b
      → offer s ≡ took a (record s { start = s.start + (length a + 1); held = b })
  unfolding offer
  offer-took a b l e =
      simp (q, split_line a b l e, ap (drop (length a + 1)) e ∙ drop_line a b b'\n', offer)

  took_line : (a b : Bytes) → Lacks b'\n' a → c ∷ cs ≡ a ++ b'\n' ∷ b → Answer s (offer s)
  took_line a b l e =
      let whole = q ∙ e in
      let long : length s.held ≡ length a + (length b + 1) =
        omega (arith, ap length whole, length-append a (b'\n' ∷ b)) in
      rw (offer-took a b l e) (
        line a (record s { start = s.start + (length a + 1); held = b })
          (record {
            bounded = v.bounded;
            within = omega (arith, long, v.within);
            at_end = v.at_end;
            spare = λ h. omega (arith, long, v.spare h);
          })
          (ap (scan max_scan_token_size)
              (ap (λ t. t ++ s.source) whole ∙ append_assoc a (b'\n' ∷ b) s.source)
            ∙ scan-line max_scan_token_size a (b ++ s.source) l
                (omega (arith, long, v.within, v.bounded)))
          refl (omega (arith, long)))

  ended_line : cut b'\n' (c ∷ cs) ≡ none → s.ended ≡ true → Answer s (offer s)
  ended_line n e =
      let short : length (c ∷ cs) < max_scan_token_size = omega (arith, ap length q, v.spare e) in
      let all : unread s ≡ c ∷ cs = ap (◌++◌ s.held) (v.at_end e) ∙ append-nil s.held ∙ q in
      rw (offer-malformed n e) (
        over (some malformed)
          (ap (scan max_scan_token_size) all
            ∙ scan_short 65535 c cs
                (ap (cut b'\n') (take_all max_scan_token_size (c ∷ cs) (omega arith)) ∙ n)
                (ground arith))
          e)

pub offer-Answer : (s : LineScanner) → Fits s → Answer s (offer s)
offer-Answer s v = elim (List-cases s.held) [
  | inl q ↦ offer-Answer_nil s v q
  | inr (c, cs, q) ↦ elim (Option-cases (cut b'\n' (c ∷ cs))) [
    | inl n ↦ elim (Bool-cases s.ended) [
      | inl e ↦ ended_line s c cs v q n e
      | inr e ↦ rw (offer-more s c cs v q n e) (wanting e (ap (cut b'\n') q ∙ n))
    ]
    | inr ((a, b), n) ↦ let (e, l) = cut_sound b'\n' (c ∷ cs) a b n in took_line s c cs v q a b l e
  ]
]
