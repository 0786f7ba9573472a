-- ===== src/EventsGenerate/Sorting.antt =====
-- pkg/wg/wglog/wgevents/internal/events-generate/main.go, `Events.UnmarshalYAML`: the result does
-- not depend on the order in which the map is walked.
use mathlib.Core.Path.{subst}
use mathlib.Core.List.{Perm}
use mathlib.Core.List.Perm
use point_c.Base.{
  ◌≡◌, ◌≢◌, refl, sym, ap, ◌∙◌, true, Bool-cases, List-cases, Option, some, map, inl, inr, List, [],
  ◌∷◌, Bytes, All, All-mono, ok, arith,
}
use point_c.EventsGenerate.{
  bytes_leb, GenEvent, insert_event, sort_events, named, named_all, present, unmarshal_events,
}
use point_c.EventsGenerate.Order.{bytes_leb_total, bytes_leb_trans, bytes_leb_antisym}

-- No name of the events in front comes behind this one's.
abbrev pub IsFirst : GenEvent → List GenEvent → Type 0
IsFirst e = All (λ f. bytes_leb e.name f.name ≡ true)

abbrev pub IsSorted : List GenEvent → Type 0
IsSorted [] = Unit {0}
IsSorted (e ∷ es) = IsFirst e es × IsSorted es

-- Another order of the same list.
pub data Shuffle {A : Type 0} : List A → List A → Type 0 where
  same : (xs : List A) → Shuffle xs xs
  keep : {xs ys : List A} → (x : A) → Shuffle xs ys → Shuffle (x ∷ xs) (x ∷ ys)
  swap : (x y : A) (xs : List A) → Shuffle (x ∷ y ∷ xs) (y ∷ x ∷ xs)
  both : {xs ys zs : List A} → Shuffle xs ys → Shuffle ys zs → Shuffle xs zs

-- The keys of a map: no name is bound twice.
abbrev pub Differs : Bytes → List (Bytes × GenEvent) → Type 0
Differs n = All (λ p. p.0 ≢ n)

abbrev pub IsMap : List (Bytes × GenEvent) → Type 0
IsMap [] = Unit {0}
IsMap ((n, e) ∷ m) = Differs n m × IsMap m

insert_event-perm : (e : GenEvent) (es : List GenEvent) → Perm (insert_event e es) (e ∷ es)
insert_event-perm e [] = Perm.rfl
insert_event-perm e (f ∷ fs) = elim (Bool-cases (bytes_leb e.name f.name)) [
  | inl h ↦ rw h Perm.rfl
  | inr h ↦ rw h (Perm.trans (Perm.cons f (insert_event-perm e fs)) (Perm.swap e f fs))
]

sort_events-perm : (es : List GenEvent) → Perm (sort_events es) es
sort_events-perm [] = Perm.rfl
sort_events-perm (e ∷ es) =
    Perm.trans (insert_event-perm e (sort_events es)) (Perm.cons e (sort_events-perm es))

insert_event-IsFirst :
    (d e : GenEvent) (es : List GenEvent)
    → bytes_leb d.name e.name ≡ true
    → IsFirst d es
    → IsFirst d (insert_event e es)
insert_event-IsFirst d e [] h k = (h, tt)
insert_event-IsFirst d e (f ∷ fs) h (k, ks) = elim (Bool-cases (bytes_leb e.name f.name)) [
  | inl l ↦ rw l (h, (k, ks))
  | inr l ↦ rw l (k, insert_event-IsFirst d e fs h ks)
]

insert_event-IsSorted :
    (e : GenEvent) (es : List GenEvent) → IsSorted es → IsSorted (insert_event e es)
insert_event-IsSorted e [] s = (tt, tt)
insert_event-IsSorted e (f ∷ fs) (k, s) = elim (Bool-cases (bytes_leb e.name f.name)) [
  | inl h ↦ rw h (((h, All-mono (λ g. bytes_leb_trans e.name f.name g.name h) fs k), (k, s)))
  | inr h ↦ rw h (
      (
        insert_event-IsFirst f e fs (bytes_leb_total e.name f.name h) k,
        insert_event-IsSorted e fs s,
      ))
]

sort_events-IsSorted : (es : List GenEvent) → IsSorted (sort_events es)
sort_events-IsSorted [] = tt
sort_events-IsSorted (e ∷ es) = insert_event-IsSorted e (sort_events es) (sort_events-IsSorted es)

-- Events of different names are inserted in any order.
insert_event_comm :
    (a b : GenEvent) (es : List GenEvent)
    → a.name ≢ b.name
    → insert_event a (insert_event b es) ≡ insert_event b (insert_event a es)
insert_event_comm a b [] h =
    ground (arith, bytes_leb_total a.name b.name, bytes_leb_antisym a.name b.name)
insert_event_comm a b (x ∷ es) h = ground (
  arith,
  bytes_leb_total a.name b.name,
  bytes_leb_total b.name a.name,
  bytes_leb_antisym a.name b.name,
  bytes_leb_trans a.name b.name x.name,
  bytes_leb_trans b.name a.name x.name,
  insert_event_comm a b es h,
)

Shuffle-Differs :
    {m m' : List (Bytes × GenEvent)} (n : Bytes) → Shuffle m m' → Differs n m → Differs n m'
Shuffle-Differs n (same m) h = h
Shuffle-Differs n (keep x s) (h, hs) = (h, Shuffle-Differs n s hs)
Shuffle-Differs n (swap x y m) (h, (k, hs)) = (k, (h, hs))
Shuffle-Differs n (both s t) h = Shuffle-Differs n t (Shuffle-Differs n s h)

Shuffle-IsMap : {m m' : List (Bytes × GenEvent)} → Shuffle m m' → IsMap m → IsMap m'
Shuffle-IsMap (same m) h = h
Shuffle-IsMap (keep (n, e) s) (h, hs) = (Shuffle-Differs n s h, Shuffle-IsMap s hs)
Shuffle-IsMap (swap (n, e) (k, f) m) ((h, hs), (l, ls)) = ((λ q. h (sym q), l), (hs, ls))
Shuffle-IsMap (both s t) h = Shuffle-IsMap t (Shuffle-IsMap s h)

sort-Shuffle :
    {m m' : List (Bytes × GenEvent)}
    → Shuffle m m'
    → IsMap m
    → sort_events (named_all m) ≡ sort_events (named_all m')
sort-Shuffle (same m) h = refl
sort-Shuffle (keep (n, e) s) (h, hs) = ap (insert_event (named n e)) (sort-Shuffle s hs)
sort-Shuffle (swap (n, e) (k, f) m) ((h, hs), rest) =
    insert_event_comm (named n e) (named k f) (sort_events (named_all m)) (λ q. h (sym q))
sort-Shuffle (both s t) h = sort-Shuffle s h ∙ sort-Shuffle t (Shuffle-IsMap s h)

-- The nice text of an event, and its format where it has none.
abbrev pub shown : Bytes → Bytes → Bytes
shown [] format = format
shown (c ∷ nice) format = c ∷ nice

-- An event under its name in the map.
abbrev pub labelled : Bytes × GenEvent → GenEvent
labelled (name, e) = record {
  name = name;
  log_type = e.log_type;
  level = e.level;
  nice = shown e.nice e.format;
  format = e.format;
  args = e.args;
  custom = e.custom;
}

named-labelled : (n : Bytes) (e : GenEvent) → named n e ≡ labelled (n, e)
named-labelled n e = elim (List-cases e.nice) [ inl q ↦ simp q | inr (c, cs, q) ↦ simp q ]

named_all-labelled : (m : List (Bytes × GenEvent)) → named_all m ≡ map labelled m
named_all-labelled [] = refl
named_all-labelled ((n, e) ∷ m) = λ i. named-labelled n e i ∷ named_all-labelled m i

-- A decoded map without a nil pointer.
abbrev pub decoded : List (Bytes × GenEvent) → List (Bytes × Option GenEvent)
decoded m = map (λ p. (p.0, some p.1)) m

present-decoded : (m : List (Bytes × GenEvent)) → present (decoded m) ≡ some m
present-decoded [] = refl
present-decoded ((n, e) ∷ m) = rw (present-decoded m) refl

unmarshal_events-decoded :
    (m : List (Bytes × GenEvent))
    → unmarshal_events (ok (decoded m)) ≡ ok (sort_events (named_all m))
unfolding unmarshal_events
unmarshal_events-decoded m = rw (present-decoded m, unmarshal_events) refl

-- The events of a decoded map without a null are those of the map, each with its name and with its
-- format where it has no nice text, sorted by their names; and however the map is walked, the result
-- is the same.
pub unmarshal_events-Shuffle :
    (m : List (Bytes × GenEvent))
    → IsMap m
    → (es : List GenEvent) × (unmarshal_events (ok (decoded m)) ≡ ok es)
      × IsSorted es
      × Perm es (map labelled m)
      × ((m' : List (Bytes × GenEvent)) → Shuffle m m' → unmarshal_events (ok (decoded m')) ≡ ok es)
unmarshal_events-Shuffle m h = (
  sort_events (named_all m),
  unmarshal_events-decoded m,
  sort_events-IsSorted (named_all m),
  subst (Perm (sort_events (named_all m))) (named_all-labelled m) (sort_events-perm (named_all m)),
  λ m' s. unmarshal_events-decoded m' ∙ ap ok (sym (sort-Shuffle s h)),
)
