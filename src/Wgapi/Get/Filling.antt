-- ===== src/Wgapi/Get/Filling.antt =====
-- The scanner of `IPCGet.Value`: more bytes are read until its buffer is full or the source has
-- ended.
use point_c.Base.{
  ℕ, zero, suc, ◌+◌, ◌-◌, ◌≤◌, ◌<◌, ◌≡◌, refl, sym, ap, ◌∙◌, ◌⊎◌, inl, inr, Bool, true, false, none,
  some, [], ◌∷◌, ◌++◌, Bytes, length, take, drop, List-cases, arith, length-append, append_assoc,
}
use point_c.Wgapi.Ipc.{max_scan_token_size}
use point_c.Wgapi.Scanner.{take-append-drop, length-take-le}
use point_c.Wgapi.Get.{LineScanner, shift, read_more, fill, weight}
use point_c.Wgapi.Get.Growing.{Fits, Small, shift-Shifted, Grown, grow-Grown}

-- What a read leaves: the same bytes in their order, fewer reads that can follow, and a source that
-- is a rest of what it was.
pub record Filled (s t : LineScanner) : Type 0 where
  pub fits : Fits t
  pub whole : t.held ++ t.source ≡ s.held ++ s.source
  pub lighter : weight t < weight s
  pub taken : Bytes
  pub rest : s.source ≡ taken ++ t.source
  pub emptied : Small s → t.source ≡ []

drop_all : (n : ℕ) (xs : Bytes) → length xs ≤ n → drop n xs ≡ []
drop_all zero [] h = refl
drop_all zero (x ∷ xs) h = absurd (omega arith)
drop_all (suc n) [] h = refl
drop_all (suc n) (x ∷ xs) h = drop_all n xs (omega arith)

length-drop : (n : ℕ) (xs : Bytes) → length (drop n xs) ≡ length xs - n
length-drop zero xs = omega arith
length-drop (suc n) [] = omega arith
length-drop (suc n) (x ∷ xs) = omega (arith, length-drop n xs)

open_lem : (b : Bool) → b ≡ false → b ≡ true → ⊥
open_lem b e h = ground arith

weight_open : (s : LineScanner) → s.ended ≡ false → weight s ≡ length s.source + 1
weight_open s e = simp e

-- The outcome of a read from the source `c ∷ cs`, with room for `r` bytes.
read_some :
    (s u : LineScanner) (c : ℕ) (cs : Bytes)
    → Fits s
    → s.ended ≡ false
    → Grown s u
    → u.source ≡ c ∷ cs
    → let r = u.size - (u.start + length u.held) in
      Filled s (record u { held = u.held ++ take r (c ∷ cs); source = drop r (c ∷ cs) })
read_some s u c cs v e g q =
    let same = ap length g.moved.held in
    let r = u.size - (u.start + length u.held) in
    let all : take r (c ∷ cs) ++ drop r (c ∷ cs) ≡ s.source =
      take-append-drop r (c ∷ cs) ∙ sym q ∙ g.moved.source in
    let not_ended : u.ended ≡ false = g.moved.ended ∙ e in
    let many = ap length (sym g.moved.source ∙ q) in
    record {
      fits = record {
        bounded = g.bounded;
        within = omega (
          arith,
          same,
          g.room,
          length-append u.held (take r (c ∷ cs)),
          length-take-le r (c ∷ cs),
        );
        at_end = λ h. absurd (open_lem u.ended not_ended h);
        spare = λ h. absurd (open_lem u.ended not_ended h);
      };
      whole =
          append_assoc u.held (take r (c ∷ cs)) (drop r (c ∷ cs))
          ∙ ap (◌++◌ u.held) all
          ∙ ap (λ l. l ++ s.source) g.moved.held;
      lighter = omega (
        arith,
        weight_open s e,
        weight_open (record u { held = u.held ++ take r (c ∷ cs); source = drop r (c ∷ cs) })
            not_ended,
        length-drop r (c ∷ cs),
        many,
        same,
        g.room,
      );
      taken = take r (c ∷ cs);
      rest = sym all;
      emptied = elim [
        | inl z ↦ absurd (omega (arith, ap length z, many))
        | inr (z, le) ↦
            drop_all r (c ∷ cs) (omega (arith, le, many, same, g.first z, g.start, z, v.within))
      ];
    }

read_none :
    (s u : LineScanner)
    → s.ended ≡ false
    → Grown s u
    → u.source ≡ []
    → Filled s (record u { ended = true })
read_none s u e g q = record {
  fits = record {
    bounded = g.bounded;
    within = omega (arith, ap length g.moved.held, g.room);
    at_end = λ _. q;
    spare = λ _. omega (arith, ap length g.moved.held, g.room, g.bounded);
  };
  whole = ap (λ l. l ++ u.source) g.moved.held ∙ ap (◌++◌ s.held) g.moved.source;
  lighter = omega (arith, weight_open s e, ap length q);
  taken = [];
  rest = sym g.moved.source;
  emptied = λ _. q;
}

read_more-eq-nil : (u : LineScanner) → u.source ≡ [] → read_more u ≡ record u { ended = true }
unfolding read_more
read_more-eq-nil u q = simp (q, read_more)

read_more-eq-cons :
    (u : LineScanner) (c : ℕ) (cs : Bytes)
    → u.source ≡ c ∷ cs
    → let r = u.size - (u.start + length u.held) in
      read_more u ≡ record u { held = u.held ++ take r (c ∷ cs); source = drop r (c ∷ cs) }
unfolding read_more
read_more-eq-cons u c cs q = simp (q, read_more)

read_more-Filled :
    (s u : LineScanner) → Fits s → s.ended ≡ false → Grown s u → Filled s (read_more u)
read_more-Filled s u v e g = elim (List-cases u.source) [
  | inl q ↦ rw (read_more-eq-nil u q) (read_none s u e g q)
  | inr (c, cs, q) ↦ rw (read_more-eq-cons u c cs q) (read_some s u c cs v e g q)
]

-- The two outcomes of `fill`: the buffer has its maximal size and is full of bytes at hand, or a
-- read is done.
pub fill-Filled :
    (s : LineScanner)
    → Fits s
    → s.ended ≡ false
    → ((fill s ≡ none) × (length s.held ≡ max_scan_token_size))
      ⊎ ((t : LineScanner) × (fill s ≡ some t) × Filled s t)
unfolding fill
fill-Filled s v e = elim (grow-Grown s (shift s) v (shift-Shifted s)) [
  | inl (q, n) ↦ inl (simp (q, fill), n)
  | inr (u, q, g) ↦ inr (read_more u, simp (q, fill), read_more-Filled s u v e g)
]
