-- ===== src/EventsGenerate.antt =====
-- pkg/wg/wglog/wgevents/internal/events-generate/main.go: the generator of the events, from the
-- decoded configuration to the lists that its templates are executed with.
pub mod Order
pub mod Sorting
pub mod Filters
use point_c.Base.{
  ℕ, ◌==◌, ltb, Bool, true, false, if◌then◌else◌, Option, none, some, List, [], ◌∷◌, ◌++◌, Bytes,
  codes, GoError, new, bytes_eq, Result, ok, err, panic,
}

-- `strings.Compare(a, b) <= 0`.
abbrev pub bytes_leb : Bytes → Bytes → Bool
bytes_leb [] b = true
bytes_leb (x ∷ a) [] = false
bytes_leb (x ∷ a) (y ∷ b) = if x == y then bytes_leb a b else ltb x y

-- `Arg`.
pub record GenArg : Type 0 where
  pub name : Bytes
  pub arg_type : Bytes

-- `Event`.
pub record GenEvent : Type 0 where
  pub name : Bytes
  pub log_type : Bytes
  pub level : Bytes
  pub nice : Bytes
  pub format : Bytes
  pub args : List GenArg
  pub custom : Bool

-- `unmarshalArg`: the first pair of the map, in the order in which it is walked.
unfoldable pub unmarshal_arg : List (Bytes × Bytes) → Result GenArg
unmarshal_arg [] = err (new "no a name: type pair")
unmarshal_arg ((n, t) ∷ m) = ok (record { name = n; arg_type = t })

-- `Arg.MarshalYAML`.
abbrev pub marshal_arg : GenArg → List (Bytes × Bytes)
marshal_arg a = (a.name, a.arg_type) ∷ []

-- `slices.Sort` of strings, and `slices.SortFunc` of events by their names, as insertion sorts: the
-- names are keys of a map, and of equal strings the order does not matter.
abbrev pub insert_name : Bytes → List Bytes → List Bytes
insert_name n [] = n ∷ []
insert_name n (m ∷ ms) =
    let rest = insert_name n ms in if bytes_leb n m then n ∷ m ∷ ms else m ∷ rest

abbrev pub sort_names : List Bytes → List Bytes
sort_names [] = []
sort_names (n ∷ ns) = insert_name n (sort_names ns)

abbrev pub insert_event : GenEvent → List GenEvent → List GenEvent
insert_event e [] = e ∷ []
insert_event e (f ∷ fs) =
    let rest = insert_event e fs in if bytes_leb e.name f.name then e ∷ f ∷ fs else f ∷ rest

abbrev pub sort_events : List GenEvent → List GenEvent
sort_events [] = []
sort_events (e ∷ es) = insert_event e (sort_events es)

-- `extraImports`.
abbrev pub extra_imports : List Bytes
extra_imports = codes "log/slog" ∷ []

-- `Imports.UnmarshalYAML`, with the result of `n.Decode`.
unfoldable pub unmarshal_imports : Result (List Bytes) → Result (List Bytes)
unmarshal_imports (ok is) = ok (sort_names (is ++ extra_imports))
unmarshal_imports (err e) = err e
unmarshal_imports panic = panic

-- The body of the loop of `Events.UnmarshalYAML`.
abbrev pub named : Bytes → GenEvent → GenEvent
named name e = record e { name = name; nice = if bytes_eq e.nice [] then e.format else e.nice }

abbrev pub named_all : List (Bytes × GenEvent) → List GenEvent
named_all [] = []
named_all ((name, e) ∷ m) = named name e ∷ named_all m

-- The events of the map, unless there is a nil pointer among them, which a null of YAML gives.
abbrev pub present : List (Bytes × Option GenEvent) → Option (List (Bytes × GenEvent))
present [] = some []
present ((name, none) ∷ m) = none
present ((name, some e) ∷ m) = elim (present m) [ none ↦ none | some es ↦ some ((name, e) ∷ es) ]

-- `Events.UnmarshalYAML`, with the decoded map, in the order in which it is walked. The loop panics
-- on a nil pointer.
unfoldable pub unmarshal_events : Result (List (Bytes × Option GenEvent)) → Result (List GenEvent)
unmarshal_events (ok m) = elim (present m) [
  | none ↦ panic
  | some es ↦ ok (sort_events (named_all es))
]
unmarshal_events (err e) = err e
unmarshal_events panic = panic

-- `Config` and `Dot`.
pub record Config : Type 0 where
  pub imports : List Bytes
  pub events : List GenEvent

pub record Dot : Type 0 where
  pub imports : List Bytes
  pub events : List GenEvent
  pub verbosef : List GenEvent
  pub errorf : List GenEvent
  pub custom : List GenEvent

-- `LogTypeErrorf` and `LogTypeVerbosef`.
abbrev pub log_type_errorf : Bytes
log_type_errorf = codes "errorf"

abbrev pub log_type_verbosef : Bytes
log_type_verbosef = codes "verbosef"

-- `filterCustom`.
abbrev pub filter_custom : Dot → GenEvent → Dot
filter_custom d ev = if ev.custom then record d { custom = d.custom ++ ev ∷ [] } else d

-- `filterType`, which panics on another type.
abbrev pub filter_type : Dot → GenEvent → Option Dot
filter_type d ev =
    if bytes_eq ev.log_type log_type_errorf
    then some (record d { errorf = d.errorf ++ ev ∷ [] })
    else if bytes_eq ev.log_type log_type_verbosef
    then some (record d { verbosef = d.verbosef ++ ev ∷ [] })
    else none

-- The loop of `NewDot`; `none` is a panic.
filter_all : List GenEvent → Dot → Option Dot
filter_all [] d = some d
filter_all (ev ∷ evs) d = elim (filter_type d ev) [
  | none ↦ none
  | some d' ↦ filter_all evs (filter_custom d' ev)
]

-- `NewDot`.
unfoldable pub new_dot : Config → Option Dot
unfolding filter_all
new_dot cfg =
    filter_all cfg.events (record {
      imports = cfg.imports;
      events = cfg.events;
      verbosef = [];
      errorf = [];
      custom = [];
    })

-- `IsError`: what the template of a logger function is executed with.
pub record IsErrorDot : Type 0 where
  pub is_error : Bool
  pub events : List GenEvent

abbrev pub is_error : List GenEvent → Bool → IsErrorDot
is_error ev is_err = record { is_error = is_err; events = ev }
