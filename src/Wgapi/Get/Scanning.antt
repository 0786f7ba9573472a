-- ===== src/Wgapi/Get/Scanning.antt =====
-- The scanner of `IPCGet.Value` yields the lines that it would yield of an input that is all at
-- hand.
use mathlib.Core.Path.{subst}
use point_c.Base.{
  ℕ, zero, suc, ◌<◌, ◌≡◌, refl, sym, ap, ◌∙◌, inl, inr, Option, none, some, [], ◌∷◌, ◌++◌, Bytes,
  GoError, length, take, cut, arith, length-append, append_assoc,
}
use point_c.Wgapi.Ipc.{max_scan_token_size}
use point_c.Wgapi.Scanner.{scan, token, stop, too_long, scan_full}
use point_c.Wgapi.Get.{
  LineScanner, Offered, took, halt, more, offer, fill, Scan, found, finished, scan_next, weight,
}
use point_c.Wgapi.Get.Growing.{Fits, Small}
use point_c.Wgapi.Get.Filling.{Filled, fill-Filled}
use point_c.Wgapi.Get.Offering.{unread, Answer, line, over, wanting, offer-Answer}

-- What is left of a scanner's source.
pub record Left (s : LineScanner) (rest : Bytes) : Type 0 where
  pub taken : Bytes
  pub split : s.source ≡ taken ++ rest
  pub emptied : Small s → rest ≡ []

pub data Agrees (s : LineScanner) : Scan → Type 0 where
  same_token :
      (l : Bytes) (t : LineScanner)
      → Fits t
      → scan max_scan_token_size (unread s) ≡ token l (unread t)
      → Left s t.source
      → Agrees s (found l t)
  same_end :
      (e : Option GoError) (rest : Bytes)
      → scan max_scan_token_size (unread s) ≡ stop e
      → Left s rest
      → Agrees s (finished e rest)

-- The source is not read, and empty if it has ended or the buffer is not made yet.
unchanged : (s : LineScanner) → Fits s → (s.size ≡ 0 → s.source ≡ []) → Left s s.source
unchanged s v h = record {
  taken = [];
  split = refl;
  emptied = elim [ inl z ↦ z | inr (z, le) ↦ h z ];
}

take-append : (n : ℕ) (a b : Bytes) → length a ≡ n → take n (a ++ b) ≡ a
take-append zero [] b h = refl
take-append zero (x ∷ a) b h = absurd (omega (arith, h))
take-append (suc n) [] b h = absurd (omega (arith, h))
take-append (suc n) (x ∷ a) b h = ap (◌∷◌ x) (take-append n a b (omega (arith, h)))

scan-eq-too_long :
    (held source : Bytes)
    → cut b'\n' held ≡ none
    → length held ≡ max_scan_token_size
    → scan max_scan_token_size (held ++ source) ≡ stop (some too_long)
scan-eq-too_long [] source n h = absurd (omega (arith, h))
scan-eq-too_long (c ∷ cs) source n h =
    scan_full 65535 c (cs ++ source)
      (ap (cut b'\n') (take-append max_scan_token_size (c ∷ cs) source h) ∙ n)
      (ground (arith, h, length-append (c ∷ cs) source))

-- The end or a token without a read, the error of a full buffer, and a read.
module _ (fuel : ℕ) (s : LineScanner) where
  scan_next-took :
      (l : Bytes) (t : LineScanner) → offer s ≡ took l t → scan_next (suc fuel) s ≡ some (found l t)
  unfolding scan_next
  scan_next-took l t e = simp (e, scan_next)

  scan_next-halt :
      (x : Option GoError) → offer s ≡ halt x → scan_next (suc fuel) s ≡ some (finished x s.source)
  unfolding scan_next
  scan_next-halt x e = simp (e, scan_next)

  scan_next-too_long :
      offer s ≡ more
      → fill s ≡ none
      → scan_next (suc fuel) s ≡ some (finished (some too_long) s.source)
  unfolding scan_next
  scan_next-too_long e f = simp (e, f, scan_next)

  scan_next-fill :
      (t : LineScanner)
      → offer s ≡ more
      → fill s ≡ some t
      → scan_next (suc fuel) s ≡ scan_next fuel t
  unfolding scan_next
  scan_next-fill t e f = simp (e, f, scan_next)

pub Left-trans : (s t : LineScanner) → Left s t.source → (rest : Bytes) → Left t rest → Left s rest
Left-trans s t a rest b = record {
  taken = a.taken ++ b.taken;
  split = a.split ∙ ap (◌++◌ a.taken) b.split ∙ sym (append_assoc a.taken b.taken rest);
  emptied = λ small. b.emptied (inl (a.emptied small));
}

Filled-Left : (s t : LineScanner) → Filled s t → Left s t.source
Filled-Left s t f = record { taken = f.taken; split = f.rest; emptied = f.emptied }

-- A read in front of a scan.
read-Agrees : (s t : LineScanner) → Filled s t → (o : Scan) → Agrees t o → Agrees s o
read-Agrees s t f o (same_token l u v e left) =
    same_token l u v (ap (scan max_scan_token_size) (sym f.whole) ∙ e)
      (Left-trans s t (Filled-Left s t f) u.source left)
read-Agrees s t f o (same_end x rest e left) =
    same_end x rest (ap (scan max_scan_token_size) (sym f.whole) ∙ e)
      (Left-trans s t (Filled-Left s t f) rest left)

-- With fuel for all reads that can follow, a scan comes to an end, with the line or the end that
-- `scan` finds in all bytes that are not yet taken.
pub scan_next-Agrees :
    (fuel : ℕ) (s : LineScanner)
    → Fits s
    → weight s < fuel
    → (o : Scan) × (scan_next fuel s ≡ some o) × Agrees s o
scan_next-Agrees zero s v h = absurd (omega arith)
scan_next-Agrees (suc fuel) s v h =
    round (offer s) refl (offer-Answer s v) (λ t. scan_next-Agrees fuel t)
  where
    round :
        (o : Offered)
        → offer s ≡ o
        → Answer s o
        → ((t : LineScanner)
            → Fits t
            → weight t < fuel
            → (o : Scan) × (scan_next fuel t ≡ some o) × Agrees t o)
        → (o : Scan) × (scan_next (suc fuel) s ≡ some o) × Agrees s o
    round o q (line l t w e same long) again = (
      found l t,
      scan_next-took fuel s l t q,
      same_token l t w e (
          subst (Left s) (sym same)
            (unchanged s v (λ z. absurd (omega (arith, z, long, v.within))))),
    )
    round o q (over x e ended) again = (
      finished x s.source,
      scan_next-halt fuel s x q,
      same_end x s.source e (unchanged s v (λ z. v.at_end ended)),
    )
    round o q (wanting not_ended n) again = elim (fill-Filled s v not_ended) [
      | inl (f, full) ↦ (
        finished (some too_long) s.source,
        scan_next-too_long fuel s q f,
        same_end (some too_long) s.source (scan-eq-too_long s.held s.source n full)
            (unchanged s v (λ z. absurd (omega (arith, z, full, v.within)))),
      )
      | inr (t, f, filled) ↦
          let (o', r, agrees) = again t filled.fits (omega (arith, filled.lighter, h)) in
          (o', scan_next-fill fuel s t q f ∙ r, read-Agrees s t filled o' agrees)
    ]
