-- ===== src/Wg/Connection/Concurrent.antt =====
-- pkg/wg/connection.go, `Wireguard.Close`, called by several goroutines: a step below is one atomic
-- operation of one of them. A closer counts as called when its call is over and its error has been
-- joined to `err`, which only the call of `Close` that runs the loop assigns; a load of `err` by
-- another call, which the code does not synchronise with the assignment, sees it before or behind.
pub mod Sharing
use mathlib.Core.List.{reverse}
use point_c.Base.{◌≡◌, Bool, true, false, Option, none, List, [], ◌∷◌, ◌++◌, GoError, join}
use point_c.Wg.Options.{Closer}

-- `close` is set, and its pointer points to `err`; the closers that are left, the next one first;
-- and those that have been called.
pub record Shared : Type 0 where
  pub is_set : Bool
  pub err : Option GoError
  pub pending : List Closer
  pub called : List Closer

-- A call of `Close`: in front of the compare-and-swap; in the loop; in front of the load of the
-- error, for the call that runs the loop and for another; or returned.
pub data Caller : Type 0 where
  entering : Caller
  looping : Caller
  loading : Bool → Caller
  returned : Bool → Option GoError → Caller

unfoldable pub enter : Shared → Shared × Caller
enter d = elim d.is_set [
  | true ↦ (d, loading false)
  | false ↦ (record d { is_set = true }, looping)
]

module _ (run : Closer → Option GoError) where
  -- One round of the loop, or its end.
  unfoldable pub call_next : Shared → Shared × Caller
  call_next d = elim d.pending [
    | [] ↦ (d, loading true)
    | c ∷ cs ↦
        (record d { err = join d.err (run c); pending = cs; called = d.called ++ c ∷ [] }, looping)
  ]

  unfoldable pub caller_step : Shared → Caller → Shared × Caller
  unfolding enter call_next
  caller_step d entering = enter d
  caller_step d looping = call_next d
  caller_step d (loading first) = (d, returned first d.err)
  caller_step d (returned first e) = (d, returned first e)

  pub record System : Type 0 where
    pub shared : Shared
    pub callers : List Caller

  -- A goroutine makes a step, or another one calls `Close`.
  pub data Step (s : System) (s' : System) : Type 0 where
    step :
        (before after : List Caller) (t : Caller)
        → s.callers ≡ before ++ t ∷ after
        → s' ≡ record {
          shared = (caller_step s.shared t).0;
          callers = before ++ (caller_step s.shared t).1 ∷ after;
        }
        → Step s s'
    call : s' ≡ record s { callers = entering ∷ s.callers } → Step s s'

  pub data Reach (s : System) : System → Type 0 where
    here : Reach s s
    next : {t u : System} → Reach s t → Step t u → Reach s u

  -- An interface that `New` returned with these closers.
  abbrev pub opened : List Closer → System
  opened closers = record {
    shared = record { is_set = false; err = none; pending = reverse closers; called = [] };
    callers = [];
  }
