-- ===== src/Wglog/Structured.antt =====
-- What a call of wireguard-go writes to the application's logger: `Multi`, `Events` and the events'
-- `Slog`.
use point_c.Base.{
  ◌≡◌, ◌∙◌, refl, sym, ap, Bool, true, false, Option, List, [], ◌∷◌, Bytes, map, length, append-nil,
  arith,
}
use point_c.Wgevents.Kind.{ArgType, EventKind}
use point_c.Wgevents.Format.{event_format, arg_types}
use point_c.Wgevents.Cases.{is_errorf}
use point_c.Wgevents.{Arg, has_types, Event, dispatch}
use point_c.Wgevents.Recognition.{IsByFormat, dispatch-event_format}
use point_c.Wgevents.Slog.{methods}
use point_c.Wgevents.Named.{length-names}
use point_c.Wglog.{pairs, LogFn, Logger, multi, call_fn, events, slog_event}
use point_c.Wglog.Broadcast.{output, multi-output_all}

-- The function of a logger that wireguard-go calls.
abbrev pub log_fn : {Out : Type 0} → Bool → Logger Out → Option (LogFn Out)
log_fn true l = l.errorf
log_fn false l = l.verbosef

log_fn-multi :
    {Out : Type 0} (errorf : Bool) (l : Logger Out) (format : Bytes) (args : List Arg)
    → output (log_fn errorf (multi (l ∷ []))) format args ≡ output (log_fn errorf l) format args
log_fn-multi true l format args =
    (multi-output_all (l ∷ []) format args).1 ∙ append-nil (output l.errorf format args)
log_fn-multi false l format args =
    (multi-output_all (l ∷ []) format args).0 ∙ append-nil (output l.verbosef format args)

log_fn-events :
    {Out : Type 0} (errorf : Bool) (fn : Event → List Out) (format : Bytes) (args : List Arg)
    → output (log_fn errorf (events fn)) format args ≡ call_fn fn (dispatch errorf format args)
unfolding events
log_fn-events true fn format args = refl
log_fn-events false fn format args = refl

length-has_types :
    (ts : List ArgType) (args : List Arg) → has_types ts args ≡ true → length args ≡ length ts
length-has_types [] [] h = refl
length-has_types [] (a ∷ args) h = ground arith
length-has_types (t ∷ ts) [] h = ground arith
length-has_types (t ∷ ts) (a ∷ args) h = ground (arith, length-has_types ts args)

pairs_lem :
    (ns : List Bytes) (args : List Arg)
    → length args ≡ length ns
    → (map (λ p. p.0) (pairs ns args) ≡ ns) × (map (λ p. p.1) (pairs ns args) ≡ args)
pairs_lem [] [] h = (refl, refl)
pairs_lem [] (a ∷ args) h = absurd (omega (arith, h))
pairs_lem (n ∷ ns) [] h = absurd (omega (arith, h))
pairs_lem (n ∷ ns) (a ∷ args) h =
    let (l, r) = pairs_lem ns args (omega (arith, h)) in (ap (◌∷◌ n) l, ap (◌∷◌ a) r)

-- A logger that is made of `Events` and of the events' `Slog`, as the networks of a client and of a
-- server make it, passes a call in the form of an event, with arguments of its types, on as one
-- record: it has the event's level and text, and as attributes all the arguments in their order,
-- under the names of the fields. This holds of all events but that of the disabled UDP offload.
pub multi-slog_event :
    (sprintf : Bytes → List Arg → Bytes) (k : EventKind) (args : List Arg)
    → IsByFormat k
    → has_types (arg_types k) args ≡ true
    → (let written =
          output
            (log_fn (is_errorf k) (multi (events (slog_event sprintf) ∷ [])))
            (event_format k)
            args in
        let attrs = pairs (methods k).names args in
        (written
          ≡ record { level = (methods k).level; message = (methods k).nice; attrs = attrs } ∷ [])
        × (map (λ p. p.0) attrs ≡ (methods k).names)
        × (map (λ p. p.1) attrs ≡ args))
unfolding slog_event
multi-slog_event sprintf k args by typed =
    let (keys, values) =
      pairs_lem (methods k).names args
        (length-has_types (arg_types k) args typed ∙ sym (length-names k)) in
    (
      log_fn-multi (is_errorf k) (events (slog_event sprintf)) (event_format k) args
          ∙ log_fn-events (is_errorf k) (slog_event sprintf) (event_format k) args
          ∙ ap (call_fn (slog_event sprintf)) (dispatch-event_format k args by typed),
      keys,
      values,
    )
