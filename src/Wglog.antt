-- ===== src/Wglog.antt =====
-- pkg/wg/wglog: loggers of wireguard-go, and how they are put together.
pub mod Broadcast
pub mod Structured
use point_c.Base.{Bool, true, false, Option, none, some, List, [], ◌∷◌, ◌++◌, Bytes}
use point_c.Wgevents.{Arg, Event, known, any_event, dispatch}
use point_c.Wgevents.Slog.{Level, debug, error, Methods, methods}
use point_c.Wgevents.Kind.{EventKind}

-- A record that a slog.Logger is given: its level, message and attributes.
pub record LogRecord : Type 0 where
  pub level : Level
  pub message : Bytes
  pub attrs : List (Bytes × Arg)

-- The values beside the names of `Slog`.
abbrev pub pairs : List Bytes → List Arg → List (Bytes × Arg)
pairs [] args = []
pairs (n ∷ ns) [] = []
pairs (n ∷ ns) (a ∷ args) = (n, a) ∷ pairs ns args

module _ (Out : Type 0) where
  -- A logger function, by what it puts out for a format and arguments; and a logger, whose
  -- functions may be nil.
  abbrev pub LogFn : Type 0
  LogFn = Bytes → List Arg → List Out

  pub record Logger : Type 0 where
    pub verbosef : Option LogFn
    pub errorf : Option LogFn

  -- What `go fn(format, args...)` starts: a goroutine with the output of the function, or one that
  -- calls nil.
  pub data Goroutine : Type 0 where
    runs : List Out → Goroutine
    calls_nil : Goroutine

module _ {Out : Type 0} where
  -- The functions of `Noop`, and those that `Multi` starts from.
  abbrev pub no_output : LogFn Out
  no_output format args = []

  -- `Noop`.
  unfoldable pub noop : Logger Out
  noop = record { verbosef = some no_output; errorf = some no_output }

  -- `appendFmtFn`.
  abbrev pub append_fmt_fn : LogFn Out → LogFn Out → LogFn Out
  append_fmt_fn fn1 fn2 format args = fn1 format args ++ fn2 format args

  -- One round of the loop of `Multi` for one of the two functions.
  abbrev pub append_fn : Option (LogFn Out) → LogFn Out → LogFn Out
  append_fn none fn = fn
  append_fn (some f) fn = append_fmt_fn f fn

  -- The loop of `Multi`.
  multi_loop : List (Logger Out) → LogFn Out → LogFn Out → LogFn Out × LogFn Out
  multi_loop [] verbosef errorf = (verbosef, errorf)
  multi_loop (l ∷ ls) verbosef errorf =
      multi_loop ls (append_fn l.verbosef verbosef) (append_fn l.errorf errorf)

  -- `Multi`.
  unfoldable pub multi : List (Logger Out) → Logger Out
  unfolding multi_loop
  multi ls =
      let (verbosef, errorf) = multi_loop ls no_output no_output in
      record { verbosef = some verbosef; errorf = some errorf }

  -- `Async`.
  abbrev pub start : Option (LogFn Out) → LogFn (Goroutine Out)
  start none format args = calls_nil ∷ []
  start (some fn) format args = runs (fn format args) ∷ []

  unfoldable pub async : Logger Out → Logger (Goroutine Out)
  async l = record { verbosef = some (start l.verbosef); errorf = some (start l.errorf) }

  -- `wgevents.Events` as a logger, for the output of `fn`.
  abbrev pub call_fn : (Event → List Out) → Option Event → List Out
  call_fn fn none = []
  call_fn fn (some e) = fn e

  unfoldable pub events : (Event → List Out) → Logger Out
  unfolding dispatch
  events fn = record {
    verbosef = some (λ format args. call_fn fn (dispatch false format args));
    errorf = some (λ format args. call_fn fn (dispatch true format args));
  }

module _ (sprintf : Bytes → List Arg → Bytes) where
  -- `Slog`, for a logger that is not nil.
  unfoldable pub slog : Logger LogRecord
  slog = record {
    verbosef =
        some
          (λ format args. record { level = debug; message = sprintf format args; attrs = [] } ∷ []);
    errorf =
        some
          (λ format args. record { level = error; message = sprintf format args; attrs = [] } ∷ []);
  }

  -- The method `Slog` of the events, and that of `EventAny`, whose `Nice` formats the arguments.
  unfoldable pub slog_event : Event → List LogRecord
  slog_event (known k args) =
      record {
        level = (methods k).level;
        message = (methods k).nice;
        attrs = pairs (methods k).names args;
      }
      ∷ []
  slog_event (any_event format args true) =
      record { level = error; message = sprintf format args; attrs = [] } ∷ []
  slog_event (any_event format args false) =
      record { level = debug; message = sprintf format args; attrs = [] } ∷ []
