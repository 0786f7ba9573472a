-- ===== src/EventsGenerate/Filters.antt =====
-- pkg/wg/wglog/wgevents/internal/events-generate/main.go, `NewDot`: every event is a case of one of
-- the two logger functions.
use point_c.Base.{
  ℕ, ◌≡◌, refl, sym, ap, ◌∙◌, Bool, true, false, if◌then◌else◌, Bool-cases, inl, inr, ◌⊎◌, none,
  some, List, [], ◌∷◌, ◌++◌, bytes_eq, bytes_eq_sound, All, append_assoc, append-nil, total, ◌+◌,
  arith,
}
use point_c.EventsGenerate.{
  GenEvent, Config, Dot, log_type_errorf, log_type_verbosef, filter_custom, filter_type, filter_all,
  new_dot,
}

-- The events for which a test holds, in their order.
abbrev pub filter : (GenEvent → Bool) → List GenEvent → List GenEvent
filter p [] = []
filter p (e ∷ es) = let rest = filter p es in if p e then e ∷ rest else rest

abbrev pub is_errorf : GenEvent → Bool
is_errorf e = bytes_eq e.log_type log_type_errorf

abbrev pub is_verbosef : GenEvent → Bool
is_verbosef e = bytes_eq e.log_type log_type_verbosef

-- A type is one of the two.
abbrev pub IsTyped : GenEvent → Type 0
IsTyped e = (is_errorf e ≡ true) ⊎ (is_verbosef e ≡ true)

-- One round of the loop, for each of the types.
filter_errorf :
    (e : GenEvent) (d : Dot)
    → is_errorf e ≡ true
    → filter_type d e ≡ some (record d { errorf = d.errorf ++ e ∷ [] })
filter_errorf e d h = rw h

type_apart : (e : GenEvent) → is_errorf e ≡ true → is_verbosef e ≡ false
type_apart e h =
    ap (λ t. bytes_eq t log_type_verbosef) (bytes_eq_sound e.log_type log_type_errorf h)

filter_verbosef :
    (e : GenEvent) (d : Dot)
    → is_errorf e ≡ false
    → is_verbosef e ≡ true
    → filter_type d e ≡ some (record d { verbosef = d.verbosef ++ e ∷ [] })
filter_verbosef e d h k = rw (h, k)

filter_other :
    (e : GenEvent) (d : Dot) → is_errorf e ≡ false → is_verbosef e ≡ false → filter_type d e ≡ none
filter_other e d h k = rw (h, k)

-- The lists of a `Dot` behind the loop over these events.
abbrev finished : Dot → List GenEvent → Dot
finished d es = record d {
  verbosef = d.verbosef ++ filter is_verbosef es;
  errorf = d.errorf ++ filter is_errorf es;
  custom = d.custom ++ filter (λ e. e.custom) es;
}

finished_errorf :
    (e : GenEvent) (es : List GenEvent) (d : Dot)
    → is_errorf e ≡ true
    → finished (filter_custom (record d { errorf = d.errorf ++ e ∷ [] }) e) es ≡ finished d (e ∷ es)
finished_errorf e es d h = elim (Bool-cases e.custom) [
  | inl c ↦
      simp (h, type_apart e h, c)
        (λ i. record {
          imports = d.imports;
          events = d.events;
          verbosef = d.verbosef ++ filter is_verbosef es;
          errorf = append_assoc d.errorf (e ∷ []) (filter is_errorf es) i;
          custom = append_assoc d.custom (e ∷ []) (filter (λ x. x.custom) es) i;
        })
  | inr c ↦
      simp (h, type_apart e h, c)
        (λ i. record {
          imports = d.imports;
          events = d.events;
          verbosef = d.verbosef ++ filter is_verbosef es;
          errorf = append_assoc d.errorf (e ∷ []) (filter is_errorf es) i;
          custom = d.custom ++ filter (λ x. x.custom) es;
        })
]

finished_verbosef :
    (e : GenEvent) (es : List GenEvent) (d : Dot)
    → is_errorf e ≡ false
    → is_verbosef e ≡ true
    → finished (filter_custom (record d { verbosef = d.verbosef ++ e ∷ [] }) e) es
      ≡ finished d (e ∷ es)
finished_verbosef e es d h k = elim (Bool-cases e.custom) [
  | inl c ↦
      simp (h, k, c)
        (λ i. record {
          imports = d.imports;
          events = d.events;
          verbosef = append_assoc d.verbosef (e ∷ []) (filter is_verbosef es) i;
          errorf = d.errorf ++ filter is_errorf es;
          custom = append_assoc d.custom (e ∷ []) (filter (λ x. x.custom) es) i;
        })
  | inr c ↦
      simp (h, k, c)
        (λ i. record {
          imports = d.imports;
          events = d.events;
          verbosef = append_assoc d.verbosef (e ∷ []) (filter is_verbosef es) i;
          errorf = d.errorf ++ filter is_errorf es;
          custom = d.custom ++ filter (λ x. x.custom) es;
        })
]

filter_all-eq-some :
    (e : GenEvent) (es : List GenEvent) (d d' : Dot)
    → filter_type d e ≡ some d'
    → filter_all (e ∷ es) d ≡ filter_all es (filter_custom d' e)
unfolding filter_all
filter_all-eq-some e es d d' h = rw (h, filter_all)

filter_all-eq-none :
    (e : GenEvent) (es : List GenEvent) (d : Dot)
    → filter_type d e ≡ none
    → filter_all (e ∷ es) d ≡ none
unfolding filter_all
filter_all-eq-none e es d h = rw (h, filter_all)

-- Neither of the two types.
abbrev pub IsOther : GenEvent → Type 0
IsOther e = (is_errorf e ≡ false) × (is_verbosef e ≡ false)

-- What the loop comes to: the lists, or a panic at the first event of another type.
abbrev Filtered : List GenEvent → Dot → Type 0
Filtered es d =
    (All IsTyped es × (filter_all es d ≡ some (finished d es)))
    ⊎ ((before : List GenEvent) × (e : GenEvent) × (after : List GenEvent) × (es
          ≡ before ++ e ∷ after)
        × All IsTyped before
        × IsOther e
        × (filter_all es d ≡ none))

Filtered-cons :
    (e : GenEvent) (es : List GenEvent) (d d' : Dot)
    → IsTyped e
    → filter_type d e ≡ some d'
    → finished (filter_custom d' e) es ≡ finished d (e ∷ es)
    → Filtered es (filter_custom d' e)
    → Filtered (e ∷ es) d
Filtered-cons e es d d' t h k (inl (ts, r)) =
    inl ((t, ts), filter_all-eq-some e es d d' h ∙ r ∙ ap some k)
Filtered-cons e es d d' t h k (inr (before, x, after, split, ts, other, r)) = inr (
    (
      e ∷ before,
      x,
      after,
      ap (λ l. e ∷ l) split,
      (t, ts),
      other,
      filter_all-eq-some e es d d' h ∙ r,
    ))

filtered : (es : List GenEvent) (d : Dot) → Filtered es d
unfolding filter_all
filtered [] d = inl (
  tt,
  λ i. some (record d {
    verbosef = sym (append-nil d.verbosef) i;
    errorf = sym (append-nil d.errorf) i;
    custom = sym (append-nil d.custom) i;
  }),
)
filtered (e ∷ es) d = elim (Bool-cases (is_errorf e)) [
  | inl h ↦
      let d' : Dot = record d { errorf = d.errorf ++ e ∷ [] } in
      Filtered-cons e es d d' (inl h) (filter_errorf e d h) (finished_errorf e es d h)
        (filtered es (filter_custom d' e))
  | inr h ↦ elim (Bool-cases (is_verbosef e)) [
    | inl k ↦
        let d' : Dot = record d { verbosef = d.verbosef ++ e ∷ [] } in
        Filtered-cons e es d d' (inr k) (filter_verbosef e d h k) (finished_verbosef e es d h k)
          (filtered es (filter_custom d' e))
    | inr k ↦ inr (([], e, es, refl, tt, (h, k), filter_all-eq-none e es d (filter_other e d h k)))
  ]
]

filter_partition :
    (w : GenEvent → ℕ) (es : List GenEvent)
    → All IsTyped es
    → total w (filter is_verbosef es) + total w (filter is_errorf es) ≡ total w es
filter_partition w [] h = omega arith
filter_partition w (e ∷ es) (inl h, hs) =
    rw (h, type_apart e h) (omega (arith, filter_partition w es hs))
filter_partition w (e ∷ es) (inr k, hs) = elim (Bool-cases (is_errorf e)) [
  | inl h ↦ rw (h, type_apart e h) (omega (arith, filter_partition w es hs))
  | inr h ↦ rw (h, k) (omega (arith, filter_partition w es hs))
]

-- `NewDot` panics exactly if there is an event whose type is neither `errorf` nor `verbosef`. If
-- there is none, the cases of the two logger functions are the events of their types and the custom
-- parsers are those of the custom events, in the order of the events, and every event is a case of
-- one function.
pub new_dot_lem :
    (cfg : Config)
    → ((All IsTyped cfg.events)
        × (new_dot cfg
            ≡ some (record {
              imports = cfg.imports;
              events = cfg.events;
              verbosef = filter is_verbosef cfg.events;
              errorf = filter is_errorf cfg.events;
              custom = filter (λ e. e.custom) cfg.events;
            }))
        × ((w : GenEvent → ℕ)
            → total w (filter is_verbosef cfg.events) + total w (filter is_errorf cfg.events)
              ≡ total w cfg.events))
      ⊎ ((before : List GenEvent) × (e : GenEvent) × (after : List GenEvent) × (cfg.events
            ≡ before ++ e ∷ after)
          × All IsTyped before
          × IsOther e
          × (new_dot cfg ≡ none))
unfolding new_dot
new_dot_lem cfg =
    elim (filtered cfg.events (record {
      imports = cfg.imports;
      events = cfg.events;
      verbosef = [];
      errorf = [];
      custom = [];
    })) [ inl (ts, r) ↦ inl (ts, r, λ w. filter_partition w cfg.events ts) | inr stop ↦ inr stop ]
