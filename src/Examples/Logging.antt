-- ===== src/Examples/Logging.antt =====
-- The logger of pkg/wg/wglog/wgevents, at a concrete call.
use mathlib.Core.List.{reverse, Perm}
use point_c.Base.{
  ℕ, ◌+◌, true, false, none, some, List, [], ◌∷◌, ◌++◌, Bytes, codes, ◌≡◌, refl, arith, map, total,
  ◌⊎◌, All, ok,
}
use point_c.Wgevents.{Arg}
use point_c.Wgevents.Slog.{methods}
use point_c.Wglog.{Logger, multi, events, slog_event, pairs}
use point_c.Wglog.Broadcast
use point_c.Wglog.Broadcast.{output, output_all}
use point_c.Wglog.Structured
use point_c.Wglog.Structured.{log_fn}
use point_c.EventsGenerate.{
  GenEvent, Config, named_all, unmarshal_events, new_dot, log_type_errorf, log_type_verbosef,
}
use point_c.EventsGenerate.Sorting
use point_c.EventsGenerate.Sorting.{IsMap, IsSorted, Shuffle}
use point_c.EventsGenerate.Filters
use point_c.EventsGenerate.Filters.{filter, is_verbosef, IsTyped, IsOther}
use point_c.Wgevents.Kind.{event_decryption_worker_stopped}
use point_c.Wgevents.Format.{event_format, arg_types}
use point_c.Wgevents.Cases.{is_errorf}
use point_c.Wgevents.{has_types, int_value}
use point_c.Wgevents.Recognition
use point_c.Wgevents.Recognition.{IsByFormat}
use point_c.Wgevents.Kept

by_format : IsByFormat event_decryption_worker_stopped
by_format h = ground arith

dispatch-known_example :
    (event_format event_decryption_worker_stopped ≡ event_format event_decryption_worker_stopped)
    × (is_errorf event_decryption_worker_stopped ≡ false)
    × (int_value 2 ∷ [] ≡ int_value 2 ∷ [])
    × (has_types (arg_types event_decryption_worker_stopped) (int_value 2 ∷ []) ≡ true)
dispatch-known_example =
    Kept.dispatch-known false (event_format event_decryption_worker_stopped) (int_value 2 ∷ [])
      (int_value 2 ∷ []) event_decryption_worker_stopped by_format
      (Recognition.dispatch-event_format event_decryption_worker_stopped (int_value 2 ∷ [])
        by_format refl)

-- Two loggers of numbers, one of them without `Errorf`.
abbrev first : Logger ℕ
first = record { verbosef = some (λ format args. 1 ∷ []); errorf = none }

abbrev second : Logger ℕ
second = record { verbosef = some (λ format args. 2 ∷ []); errorf = some (λ format args. 3 ∷ []) }

abbrev loggers : List (Logger ℕ)
loggers = first ∷ second ∷ []

multi-output_all_example :
    (output (multi loggers).verbosef (codes "m") []
      ≡ output_all (λ l. l.verbosef) (reverse loggers) (codes "m") [])
    × (output (multi loggers).errorf (codes "m") []
        ≡ output_all (λ l. l.errorf) (reverse loggers) (codes "m") [])
    × ((w : ℕ → ℕ)
        → (total w (output (multi loggers).verbosef (codes "m") [])
            ≡ total w (output_all (λ l. l.verbosef) loggers (codes "m") []))
          × (total w (output (multi loggers).errorf (codes "m") [])
              ≡ total w (output_all (λ l. l.errorf) loggers (codes "m") [])))
multi-output_all_example = Broadcast.multi-output_all loggers (codes "m") []

abbrev formatted : Bytes → List Arg → Bytes
formatted format args = format

abbrev worker_args : List Arg
worker_args = int_value 2 ∷ []

multi-slog_event_example :
    (let k = event_decryption_worker_stopped in
      let attrs = pairs (methods k).names worker_args in
      (output
          (log_fn (is_errorf k) (multi (events (slog_event formatted) ∷ [])))
          (event_format k)
          worker_args
        ≡ record { level = (methods k).level; message = (methods k).nice; attrs = attrs } ∷ [])
      × (map (λ p. p.0) attrs ≡ (methods k).names)
      × (map (λ p. p.1) attrs ≡ worker_args))
multi-slog_event_example =
    Structured.multi-slog_event formatted event_decryption_worker_stopped worker_args by_format refl

-- Two events of a configuration.
abbrev an_event : Bytes → GenEvent
an_event log_type = record {
  name = [];
  log_type = log_type;
  level = codes "info";
  nice = [];
  format = codes "started";
  args = [];
  custom = false;
}

abbrev decoded : List (Bytes × GenEvent)
decoded = (codes "b", an_event log_type_errorf) ∷ (codes "a", an_event log_type_verbosef) ∷ []

decoded-IsMap : IsMap decoded
decoded-IsMap = ((λ h. ground arith, tt), (tt, tt))

unmarshal_events-Shuffle_example :
    (es : List GenEvent) × (unmarshal_events (ok (Sorting.decoded decoded)) ≡ ok es)
    × IsSorted es
    × Perm es (map Sorting.labelled decoded)
    × ((m' : List (Bytes × GenEvent))
        → Shuffle decoded m'
        → unmarshal_events (ok (Sorting.decoded m')) ≡ ok es)
unmarshal_events-Shuffle_example = Sorting.unmarshal_events-Shuffle decoded decoded-IsMap

abbrev config : Config
config = record { imports = []; events = named_all decoded }

new_dot_lem_example :
    ((All IsTyped config.events)
      × (new_dot config
          ≡ some (record {
            imports = config.imports;
            events = config.events;
            verbosef = filter is_verbosef config.events;
            errorf = filter Filters.is_errorf config.events;
            custom = filter (λ e. e.custom) config.events;
          }))
      × ((w : GenEvent → ℕ)
          → total w (filter is_verbosef config.events)
              + total w (filter Filters.is_errorf config.events)
            ≡ total w config.events))
    ⊎ ((before : List GenEvent) × (e : GenEvent) × (after : List GenEvent) × (config.events
          ≡ before ++ e ∷ after)
        × All IsTyped before
        × IsOther e
        × (new_dot config ≡ none))
new_dot_lem_example = Filters.new_dot_lem config
