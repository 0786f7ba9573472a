-- ===== src/Wgevents/Kept.antt =====
-- An event says what was logged.
use point_c.Base.{
  Bool, true, false, not, ◌&&◌, Bool-cases, Option, Option-cases, none, some, List, [], ◌∷◌, Bytes,
  ◌≡◌, ◌≢◌, refl, ap, sym, ◌∙◌, inl, inr, arith, bytes_eq, bytes_eq_sound, All,
}
use point_c.Wgevents.Kind.{EventKind, event_udp_gso_disabled}
use point_c.Wgevents.Format.{event_format, arg_types}
use point_c.Wgevents.Cases.{is_errorf, verbosef_cases, errorf_cases}
use point_c.Wgevents.{
  Arg, has_types, Event, known, any_event, find_kind, cases_of, recognized, unrecognized,
  is_empty_case, parse_udp_gso_disabled, dispatch,
}
use point_c.Wgevents.Recognition.{IsByFormat}

false-ne-true : false ≢ true
false-ne-true h = ground arith

none-ne-some : (e : Event) → ◌≢◌ {A = Option Event} none (some e)
none-ne-some e h = ground arith

some_lem : (j k : EventKind) → some j ≡ some k → j ≡ k
some_lem j k h = cc

find_kind_sound :
    (errorf : Bool) (ks : List EventKind) (format : Bytes) (k : EventKind)
    → All (λ j. is_errorf j ≡ errorf) ks
    → find_kind ks format ≡ some k
    → (event_format k ≡ format) × (is_errorf k ≡ errorf)
unfolding find_kind
find_kind_sound errorf [] format k all h = ground arith
find_kind_sound errorf (j ∷ ks) format k (a, all) h =
    elim (Bool-cases (bytes_eq (event_format j) format)) [
      | inl e ↦
          let same : j ≡ k = some_lem j k (rw (e, find_kind) at h) in
          (
            ap event_format (sym same) ∙ bytes_eq_sound (event_format j) format e,
            ap is_errorf (sym same) ∙ a,
          )
      | inr e ↦ find_kind_sound errorf ks format k all (rw (e, find_kind) at h)
    ]

abbrev all_errorf : List EventKind → Bool
all_errorf [] = true
all_errorf (k ∷ ks) = is_errorf k && all_errorf ks

abbrev all_verbosef : List EventKind → Bool
all_verbosef [] = true
all_verbosef (k ∷ ks) = not (is_errorf k) && all_verbosef ks

all_errorf-All : (ks : List EventKind) → all_errorf ks ≡ true → All (λ j. is_errorf j ≡ true) ks
all_errorf-All [] h = tt
all_errorf-All (k ∷ ks) h = elim (Bool-cases (is_errorf k)) [
  | inl e ↦ (e, all_errorf-All ks (rw e at h))
  | inr e ↦ absurd (false-ne-true (rw e at h))
]

all_verbosef-All :
    (ks : List EventKind) → all_verbosef ks ≡ true → All (λ j. is_errorf j ≡ false) ks
all_verbosef-All [] h = tt
all_verbosef-All (k ∷ ks) h = elim (Bool-cases (is_errorf k)) [
  | inl e ↦ absurd (false-ne-true (rw e at h))
  | inr e ↦ (e, all_verbosef-All ks (rw e at h))
]

cases_of-is_errorf : (errorf : Bool) → All (λ j. is_errorf j ≡ errorf) (cases_of errorf)
cases_of-is_errorf true = all_errorf-All errorf_cases refl
cases_of-is_errorf false = all_verbosef-All verbosef_cases refl

abbrev kind_or : EventKind → Event → EventKind
kind_or k (known j args) = j
kind_or k (any_event format args errorf) = k

abbrev args_or : List Arg → Event → List Arg
args_or as_ (known j args) = args
args_or as_ (any_event format args errorf) = as_

abbrev is_known : Event → Bool
is_known (known j args) = true
is_known (any_event format args errorf) = false

recognized-known :
    (errorf : Bool) (format : Bytes) (args as_ : List Arg) (j k : EventKind)
    → recognized errorf format args j ≡ known k as_
    → (j ≡ k) × (as_ ≡ args) × (has_types (arg_types j) args ≡ true)
unfolding recognized
recognized-known errorf format args as_ j k h = elim (Bool-cases (has_types (arg_types j) args)) [
  | inl t ↦
      let e : known j args ≡ known k as_ = rw (t, recognized) at h in
      (ap (kind_or j) e, sym (ap (args_or args) e), t)
  | inr t ↦ absurd (false-ne-true (ap is_known (rw (t, recognized) at h)))
]

unrecognized-known :
    (errorf : Bool) (format : Bytes) (args as_ : List Arg) (k : EventKind)
    → unrecognized errorf format args ≡ known k as_
    → k ≡ event_udp_gso_disabled
unfolding unrecognized
unrecognized-known true format args as_ k h = absurd (false-ne-true (ap is_known h))
unrecognized-known false format args as_ k h = elim (Option-cases (parse_udp_gso_disabled format)) [
  | inl e ↦ absurd (false-ne-true (ap is_known (rw (e, unrecognized) at h)))
  | inr (addr, e) ↦ sym (ap (kind_or k) (rw (e, unrecognized) at h))
]

event_or : Event → Option Event → Event
event_or d none = d
event_or d (some e) = e

-- An event that a logger function makes, other than that of the disabled UDP offload, says what was
-- logged: its format and arguments are those of the call, its logger function is the one called,
-- and the arguments have the types of its fields.
pub dispatch-known :
    (errorf : Bool) (format : Bytes) (args as_ : List Arg) (k : EventKind)
    → IsByFormat k
    → dispatch errorf format args ≡ some (known k as_)
    → (event_format k ≡ format)
      × (is_errorf k ≡ errorf)
      × (as_ ≡ args)
      × (has_types (arg_types k) args ≡ true)
unfolding dispatch event_or
dispatch-known errorf format args as_ k by h =
    elim (Option-cases (find_kind (cases_of errorf) format)) [
      | inr (j, e) ↦
          let made = ap (event_or (known k as_)) (rw (e, dispatch) at h) in
          let (same, kept, typed) = recognized-known errorf format args as_ j k made in
          let (f, b) =
            find_kind_sound errorf (cases_of errorf) format k (cases_of-is_errorf errorf)
              (e ∙ ap some same) in
          (f, b, kept, ap (λ i. has_types (arg_types i) args) (sym same) ∙ typed)
      | inl e ↦ elim (Bool-cases (is_empty_case errorf format)) [
        | inl c ↦ absurd (none-ne-some (known k as_) (rw (e, c, dispatch) at h))
        | inr c ↦ absurd (
            by (
              unrecognized-known errorf format args as_ k
                (ap (event_or (known k as_)) (rw (e, c, dispatch) at h))))
      ]
    ]
