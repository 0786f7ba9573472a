-- ===== src/ChannelListener.antt =====
-- pkg/channel-listener/channel-listener.go: a net.Listener that takes its connections from a
-- channel. Goroutines share the listener; a step below is one atomic operation of one of them.
pub mod Closing
use point_c.Base.{
  ℕ, zero, suc, ◌+◌, ◌≡◌, refl, Bool, true, false, Option, none, some, List, [], ◌∷◌, ◌++◌, GoError,
  net_closed,
}

-- The channel's connections are numbered; `closed` says that its sender closed it.
pub record Channel : Type 0 where
  pub waiting : List ℕ
  pub closed : Bool

-- `Listener`: its input channel, whether `done` is closed, and `closeErr`. `crashed` is set when a
-- goroutine closes a closed channel or follows a nil pointer.
pub record Listener : Type 0 where
  pub input : Channel
  pub done : Bool
  pub close_err : Option GoError
  pub crashed : Bool

-- `New`.
unfoldable pub new_listener : Channel → Listener
new_listener input = record { input = input; done = false; close_err = none; crashed = false }

-- The error that `CloseWithErr` stores for its argument.
abbrev pub stored_error : Option GoError → GoError
stored_error none = net_closed
stored_error (some e) = e

-- Where a goroutine stands: inside `CloseWithErr`, before its compare-and-swap or behind one that
-- succeeded; in the select of `Accept`; in the call of `Close` that `Accept` makes, at the same two
-- points; before the last load of `closeErr`; or returned.
pub data Thread : Type 0 where
  swapping : GoError → Thread
  swapped : Thread
  selecting : Thread
  accept_swapping : Thread
  accept_swapped : Thread
  loading : Thread
  returned_conn : ℕ → Thread
  returned_err : GoError → Thread
  returned : Thread

-- `CloseWithErr(err)` and `Close()` as they start.
unfoldable pub close_with_err : Option GoError → Thread
close_with_err e = swapping (stored_error e)

unfoldable pub close : Thread
unfolding close_with_err
close = close_with_err none

-- `d.closeErr.CompareAndSwap(nil, &err)`.
compare_and_swap : Listener → GoError → Thread → Thread → Listener × Thread
compare_and_swap d e won lost = elim d.close_err [
  | none ↦ (record d { close_err = some e }, won)
  | some _ ↦ (d, lost)
]

-- `close(d.done)`, which panics on a closed channel.
close_done : Listener → Thread → Listener × Thread
close_done d next = elim d.done [
  | true ↦ (record d { crashed = true }, next)
  | false ↦ (record d { done = true }, next)
]

-- `*d.closeErr.Load()`, which panics on nil.
load_err : Listener → Listener × Thread
load_err d = elim d.close_err [
  | none ↦ (record d { crashed = true }, returned)
  | some e ↦ (d, returned_err e)
]

-- `<-d.c` in the select, if it is ready.
receive : Listener → List ℕ → Bool → Listener × Thread
receive d (c ∷ cs) closed =
    (record d { input = record { waiting = cs; closed = closed } }, returned_conn c)
receive d [] true = (d, accept_swapping)
receive d [] false = (d, selecting)

-- One step of a goroutine. In the select the choice is to take `done` (true) or the channel
-- (false); a choice that is not ready leaves the goroutine waiting.
unfoldable pub step : Bool → Listener → Thread → Listener × Thread
unfolding compare_and_swap close_done load_err receive
step choice d (swapping e) = compare_and_swap d e swapped returned
step choice d swapped = close_done d returned
step true d selecting = elim d.done [ true ↦ load_err d | false ↦ (d, selecting) ]
step false d selecting = receive d d.input.waiting d.input.closed
step choice d accept_swapping = compare_and_swap d net_closed accept_swapped loading
step choice d accept_swapped = close_done d loading
step choice d loading = load_err d
step choice d (returned_conn c) = (d, returned_conn c)
step choice d (returned_err e) = (d, returned_err e)
step choice d returned = (d, returned)

-- The listener with all its goroutines.
pub record System : Type 0 where
  pub listener : Listener
  pub threads : List Thread

-- One goroutine of the system makes a step; the sender sends a connection or closes the channel; a
-- caller starts a goroutine.
pub data Step (s : System) : System → Type 0 where
  run :
      (choice : Bool) (before after : List Thread) (t : Thread) (s' : System)
      → s.threads ≡ before ++ t ∷ after
      → s' ≡ record {
        listener = (step choice s.listener t).0;
        threads = before ++ (step choice s.listener t).1 ∷ after;
      }
      → Step s s'
  send :
      (c : ℕ) (s' : System)
      → s.listener.input.closed ≡ false
      → s' ≡ record s {
        listener = record s.listener {
          input = record { waiting = s.listener.input.waiting ++ c ∷ []; closed = false };
        };
      }
      → Step s s'
  close_channel :
      (s' : System)
      → s.listener.input.closed ≡ false
      → s' ≡ record s {
        listener = record s.listener {
          input = record { waiting = s.listener.input.waiting; closed = true };
        };
      }
      → Step s s'
  call_accept : (s' : System) → s' ≡ record s { threads = selecting ∷ s.threads } → Step s s'
  call_close :
      (e : Option GoError) (s' : System)
      → s' ≡ record s { threads = close_with_err e ∷ s.threads }
      → Step s s'

pub data Reach (s : System) : System → Type 0 where
  here : Reach s s
  next : {t u : System} → Reach s t → Step t u → Reach s u

-- A new listener, with no goroutine.
abbrev pub initial : Channel → System
initial input = record { listener = new_listener input; threads = [] }
