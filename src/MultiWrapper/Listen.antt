-- ===== src/MultiWrapper/Listen.antt =====
-- merge-listener-wrapper.go, `listen`: one goroutine for each listener, all of them sending to one
-- channel that the merged listener reads.
use mathlib.Core.Path.{subst}
use point_c.Base.{
  ℕ, ◌+◌, ◌≡◌, refl, sym, Option, none, some, List, [], ◌∷◌, ◌++◌, GoError, arith, ◌==◌,
  if◌then◌else◌,
}
use point_c.MultiWrapper.{ListenerId}

-- Where the goroutine of a listener stands: in `ls.Accept()`, in the select with a connection, or
-- returned.
pub data Worker : Type 0 where
  accepting : ListenerId → Worker
  holding : ListenerId → ℕ → Worker
  finished : Worker

-- The merged listener's error, once it is closed; the connections that its `Accept` received; those
-- that were closed unseen; and, for the statements only, those that the listeners accepted.
pub record Shared : Type 0 where
  pub close_err : Option GoError
  pub delivered : List ℕ
  pub dropped : List ℕ
  pub accepted : List ℕ

-- What lets a goroutine go on: its listener returns a connection or an error; or the select takes
-- the closed `done`, or a receiver on `conns`.
pub data Event : Type 0 where
  accepts : ℕ → Event
  fails : GoError → Event
  done_ready : Event
  conn_received : Event

-- `finish(err)`, which is `CloseWithErr`: the first error stays.
finish : Shared → GoError → Shared
finish s e = elim s.close_err [ none ↦ record s { close_err = some e } | some _ ↦ s ]

-- `case <-done`: the connection is closed and ignored.
drop_conn : Shared → ListenerId → ℕ → Shared × Worker
drop_conn s ls c = elim s.close_err [
  | none ↦ (s, holding ls c)
  | some _ ↦ (record s { dropped = c ∷ s.dropped }, accepting ls)
]

-- One step of `listen`; an event that the goroutine does not wait for, or that is not ready,
-- changes nothing.
unfoldable pub listen_step : Event → Shared → Worker → Shared × Worker
unfolding finish drop_conn
listen_step (accepts c) s (accepting ls) = (record s { accepted = c ∷ s.accepted }, holding ls c)
listen_step (fails e) s (accepting ls) = (finish s e, finished)
listen_step done_ready s (holding ls c) = drop_conn s ls c
listen_step conn_received s (holding ls c) =
    (record s { delivered = c ∷ s.delivered }, accepting ls)
listen_step _ s w = (s, w)

pub record System : Type 0 where
  pub shared : Shared
  pub workers : List Worker

-- One goroutine makes a step.
pub data Step (s : System) (s' : System) : Type 0 where
  run :
      (ev : Event) (before after : List Worker) (w : Worker)
      → s.workers ≡ before ++ w ∷ after
      → s' ≡ record {
        shared = (listen_step ev s.shared w).0;
        workers = before ++ (listen_step ev s.shared w).1 ∷ after;
      }
      → Step s s'

pub data Reach (s : System) : System → Type 0 where
  here : Reach s s
  next : {t u : System} → Reach s t → Step t u → Reach s u

abbrev started : List ListenerId → List Worker
started [] = []
started (l ∷ ls) = accepting l ∷ started ls

-- `WrapListener` behind the start of its goroutines.
abbrev pub initial : List ListenerId → System
initial ls = record {
  shared = record { close_err = none; delivered = []; dropped = []; accepted = [] };
  workers = started ls;
}

-- How often a connection occurs.
abbrev pub count : ℕ → List ℕ → ℕ
count a [] = 0
count a (c ∷ cs) = (if c == a then 1 else 0) + count a cs

abbrev holds : ℕ → Worker → ℕ
holds a (holding ls c) = if c == a then 1 else 0
holds a _ = 0

abbrev pub held : ℕ → List Worker → ℕ
held a [] = 0
held a (w ∷ ws) = holds a w + held a ws

held-append : (a : ℕ) (xs ys : List Worker) → held a (xs ++ ys) ≡ held a xs + held a ys
held-append a [] ys = omega arith
held-append a (w ∷ xs) ys = omega (arith, held-append a xs ys)

-- Nothing is dropped, and no goroutine has returned, before the merged listener is closed.
abbrev IsOpen : Option GoError → List ℕ → Type 0
IsOpen none dropped = dropped ≡ []
IsOpen (some e) dropped = Unit {0}

step_count :
    (ev : Event) (s : Shared) (w : Worker) (a rest : ℕ)
    → count a s.accepted ≡ count a s.delivered + count a s.dropped + (rest + holds a w)
    → let s' = (listen_step ev s w).0 in
      let w' = (listen_step ev s w).1 in
      count a s'.accepted ≡ count a s'.delivered + count a s'.dropped + (rest + holds a w')
unfolding listen_step
step_count (accepts c) s (accepting ls) a rest h = ground arith
step_count (accepts c) s (holding ls x) a rest h = h
step_count (accepts c) s finished a rest h = h
step_count (fails e) s (accepting ls) a rest h = ground arith
step_count (fails e) s (holding ls x) a rest h = h
step_count (fails e) s finished a rest h = h
step_count done_ready s (accepting ls) a rest h = h
step_count done_ready s (holding ls x) a rest h = ground arith
step_count done_ready s finished a rest h = h
step_count conn_received s (accepting ls) a rest h = h
step_count conn_received s (holding ls x) a rest h = ground arith
step_count conn_received s finished a rest h = h

step-IsOpen :
    (ev : Event) (s : Shared) (w : Worker)
    → IsOpen s.close_err s.dropped
    → IsOpen (listen_step ev s w).0.close_err (listen_step ev s w).0.dropped
unfolding listen_step
step-IsOpen (accepts c) s (accepting ls) h = h
step-IsOpen (accepts c) s (holding ls x) h = h
step-IsOpen (accepts c) s finished h = h
step-IsOpen (fails e) s (accepting ls) h = ground arith
step-IsOpen (fails e) s (holding ls x) h = h
step-IsOpen (fails e) s finished h = h
step-IsOpen done_ready s (accepting ls) h = h
step-IsOpen done_ready s (holding ls x) h = ground arith
step-IsOpen done_ready s finished h = h
step-IsOpen conn_received s (accepting ls) h = h
step-IsOpen conn_received s (holding ls x) h = h
step-IsOpen conn_received s finished h = h

-- Every connection that a listener accepted was delivered, was closed, or is held by a goroutine,
-- as often as it was accepted; nothing is closed before the merged listener is.
pub record IsConserving (s : System) : Type 0 where
  pub balance :
      (a : ℕ)
      → count a s.shared.accepted
        ≡ count a s.shared.delivered + count a s.shared.dropped + held a s.workers
  pub keeps_open : IsOpen s.shared.close_err s.shared.dropped

run-IsConserving :
    (ev : Event) (s : Shared) (before after : List Worker) (w : Worker)
    → IsConserving (record { shared = s; workers = before ++ w ∷ after })
    → IsConserving (record {
      shared = (listen_step ev s w).0;
      workers = before ++ (listen_step ev s w).1 ∷ after;
    })
run-IsConserving ev s before after w v = record {
  balance = λ a.
      let w' = (listen_step ev s w).1 in
      omega (
        arith,
        v.balance a,
        held-append a before (w ∷ after),
        held-append a before (w' ∷ after),
        step_count ev s w a (held a before + held a after)
            (omega (arith, v.balance a, held-append a before (w ∷ after))),
      );
  keeps_open = step-IsOpen ev s w v.keeps_open;
}

Step-IsConserving : (s s' : System) → Step s s' → IsConserving s → IsConserving s'
Step-IsConserving s s' (run ev before after w e e') v = subst IsConserving (sym e') (
    run-IsConserving ev s.shared before after w
      (subst IsConserving (λ i. record { shared = s.shared; workers = e i }) v))

held-started : (a : ℕ) (ls : List ListenerId) → held a (started ls) ≡ 0
held-started a [] = refl
held-started a (l ∷ ls) = omega (arith, held-started a ls)

-- Whatever the listeners return and in whatever order the goroutines run, no connection is lost or
-- delivered twice, and none is closed while the merged listener is open.
pub Reach-IsConserving : (ls : List ListenerId) (s : System) → Reach (initial ls) s → IsConserving s
Reach-IsConserving ls s here = record {
  balance = λ a. omega (arith, held-started a ls);
  keeps_open = refl;
}
Reach-IsConserving ls s (next {t} r st) = Step-IsConserving t s st (Reach-IsConserving ls t r)
