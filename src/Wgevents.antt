-- ===== src/Wgevents.antt =====
-- pkg/wg/wglog/wgevents: the logger that makes events of the calls of wireguard-go.
pub mod Kind
pub mod Format
pub mod Cases
pub mod Recognition
pub mod Kept
pub mod Slog
pub mod Named
use point_c.Base.{
  ℕ, Bool, true, false, ◌&&◌, Option, none, some, List, [], ◌∷◌, ◌++◌, Bytes, codes, bytes_eq,
  if◌then◌else◌,
}
use point_c.Wgevents.Kind.{
  ArgType, error_type, int_type, string_type, peer_type, uint32_type, timestamp_type, stringer_type,
  EventKind, event_udp_gso_disabled,
}
use point_c.Wgevents.Format.{event_format, arg_types}
use point_c.Wgevents.Cases.{verbosef_cases, errorf_cases}

-- An argument by its dynamic type; `stringer` is of a type of its own with a method `String`, and
-- `other_value` of a type without methods, or nil.
pub data Arg : Type 0 where
  error_value : ℕ → Arg
  int_value : ℕ → Arg
  string_value : Bytes → Arg
  peer : ℕ → Arg
  uint32_value : ℕ → Arg
  timestamp : ℕ → Arg
  stringer : ℕ → Arg
  other_value : ℕ → Arg

-- The type assertions; peers and timestamps have a method `String`.
abbrev pub has_type : ArgType → Arg → Bool
has_type error_type (error_value n) = true
has_type int_type (int_value n) = true
has_type string_type (string_value s) = true
has_type peer_type (peer n) = true
has_type uint32_type (uint32_value n) = true
has_type timestamp_type (timestamp n) = true
has_type stringer_type (stringer n) = true
has_type stringer_type (peer n) = true
has_type stringer_type (timestamp n) = true
has_type _ _ = false

-- The check of the number of arguments, and the assertions.
abbrev pub has_types : List ArgType → List Arg → Bool
has_types [] [] = true
has_types [] (a ∷ args) = false
has_types (t ∷ ts) [] = false
has_types (t ∷ ts) (a ∷ args) = has_type t a && has_types ts args

-- An event with its fields, or `EventAny`.
pub data Event : Type 0 where
  known : EventKind → List Arg → Event
  any_event : Bytes → List Arg → Bool → Event

-- The switch on the format.
find_kind : List EventKind → Bytes → Option EventKind
unfolding event_format
find_kind [] format = none
find_kind (k ∷ ks) format =
    let rest = find_kind ks format in if bytes_eq (event_format k) format then some k else rest

-- The cases of `Errorf` (true) and of `Verbosef`.
abbrev pub cases_of : Bool → List EventKind
cases_of true = errorf_cases
cases_of false = verbosef_cases

-- The body of a case.
recognized : Bool → Bytes → List Arg → EventKind → Event
recognized errorf format args k =
    if has_types (arg_types k) args then known k args else any_event format args errorf

-- `strings.Cut(ev.Format(), "%s")`.
abbrev pub gso_prefix : Bytes
gso_prefix = codes "disabled UDP GSO on "

abbrev pub gso_suffix : Bytes
gso_suffix = codes ", NIC(s) may not support checksum offload"

-- The text behind a prefix, and in front of a suffix, if there is one.
abbrev pub after_prefix : Bytes → Bytes → Option Bytes
after_prefix [] s = some s
after_prefix (p ∷ ps) [] = none
after_prefix (p ∷ ps) (c ∷ s) =
    let rest = after_prefix ps s in if bytes_eq (p ∷ []) (c ∷ []) then rest else none

abbrev pub before_suffix : Bytes → Bytes → Option Bytes
before_suffix suffix [] = if bytes_eq suffix [] then some [] else none
before_suffix suffix (c ∷ s) =
    let rest = before_suffix suffix s in
    if bytes_eq suffix (c ∷ s) then some [] else elim rest [ none ↦ none | some t ↦ some (c ∷ t) ]

-- `strings.TrimPrefix`.
abbrev pub trim_prefix : Bytes → Bytes → Bytes
trim_prefix prefix s = elim (after_prefix prefix s) [ none ↦ s | some rest ↦ rest ]

-- `ParseUDPGSODisabled`: the address, if the text has the two parts.
unfoldable pub parse_udp_gso_disabled : Bytes → Option Bytes
parse_udp_gso_disabled s = elim (after_prefix gso_prefix s) [
  | none ↦ none
  | some _ ↦ elim (before_suffix gso_suffix s) [
    | none ↦ none
    | some t ↦ some (trim_prefix gso_prefix t)
  ]
]

-- The default case of `Errorf` and that of `Verbosef`.
unrecognized : Bool → Bytes → List Arg → Event
unfolding parse_udp_gso_disabled
unrecognized true format args = any_event format args true
unrecognized false format args = elim (parse_udp_gso_disabled format) [
  | none ↦ any_event format args false
  | some addr ↦ known event_udp_gso_disabled (string_value addr ∷ [])
]

-- The case of `Verbosef` for the format of the disabled UDP offload, whose body is empty.
abbrev pub is_empty_case : Bool → Bytes → Bool
is_empty_case true format = false
is_empty_case false format =
    bytes_eq format (codes "disabled UDP GSO on %s, NIC(s) may not support checksum offload")

-- The functions `Errorf` (true) and `Verbosef` of `Events`: the event that `fn` is called with, if
-- any.
unfoldable pub dispatch : Bool → Bytes → List Arg → Option Event
unfolding find_kind recognized unrecognized
dispatch errorf format args = elim (find_kind (cases_of errorf) format) [
  | some k ↦ some (recognized errorf format args k)
  | none ↦ if is_empty_case errorf format then none else some (unrecognized errorf format args)
]
