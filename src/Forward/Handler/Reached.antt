-- ===== src/Forward/Handler/Reached.antt =====
-- forward.go, `forwardListener`: what holds of a listener and its connections, however their
-- goroutines interleave.
use mathlib.Core.Path.{subst}
use point_c.Base.{◌≡◌, refl, sym, true, List, [], ◌∷◌, ◌++◌, All, All-append, All-split}
use point_c.Forward.Handler.{
  Handler, Event, handler_step, cancel_all, Server, initial, Step, accept, accept_fails,
  cancel_context, handle, Reach, here, next,
}
use point_c.Forward.Handler.Orderly.{
  IsOrderly, accepted-IsOrderly, handler_step-IsOrderly, cancelled-IsOrderly,
  handler_step-cancelled,
}

-- Every connection is `IsOrderly`; the loop returns only with a cancelled context, and a cancelled
-- context cancels those of all connections.
abbrev pub IsCancelled : Handler → Type 0
IsCancelled h = h.cancelled ≡ true

pub record IsSafe (s : Server) : Type 0 where
  pub orderly : All IsOrderly s.handlers
  pub stopped : s.finished ≡ true → s.cancelled ≡ true
  pub spread : s.cancelled ≡ true → All IsCancelled s.handlers

cancel_all-IsOrderly : (hs : List Handler) → All IsOrderly hs → All IsOrderly (cancel_all hs)
cancel_all-IsOrderly [] v = tt
cancel_all-IsOrderly (h ∷ hs) (v, vs) = (cancelled-IsOrderly h v, cancel_all-IsOrderly hs vs)

cancel_all-IsCancelled : (hs : List Handler) → All IsCancelled (cancel_all hs)
cancel_all-IsCancelled [] = tt
cancel_all-IsCancelled (h ∷ hs) = (refl, cancel_all-IsCancelled hs)

handle-IsSafe :
    (s : Server) (ev : Event) (before after : List Handler) (h : Handler)
    → IsSafe (record s { handlers = before ++ h ∷ after })
    → IsSafe (record s { handlers = before ++ handler_step ev h ∷ after })
handle-IsSafe s ev before after h v =
    let (l, m, r) = All-split IsOrderly before after h v.orderly in
    record {
      orderly =
          All-append IsOrderly before (handler_step ev h ∷ after) l
            (handler_step-IsOrderly ev h m, r);
      stopped = v.stopped;
      spread = λ e.
          let (l', m', r') = All-split IsCancelled before after h (v.spread e) in
          All-append IsCancelled before (handler_step ev h ∷ after) l'
            (handler_step-cancelled ev h m', r');
    }

pub Step-IsSafe : (s s' : Server) → Step s s' → IsSafe s → IsSafe s'
Step-IsSafe s s' (accept h e) v = subst IsSafe (sym e) (record {
  orderly = (accepted-IsOrderly s.cancelled, v.orderly);
  stopped = v.stopped;
  spread = λ c. (c, v.spread c);
})
Step-IsSafe s s' (accept_fails h e) v = subst IsSafe (sym e) (record {
  orderly = cancel_all-IsOrderly s.handlers v.orderly;
  stopped = λ c. refl;
  spread = λ c. cancel_all-IsCancelled s.handlers;
})
Step-IsSafe s s' (cancel_context e) v = subst IsSafe (sym e) (record {
  orderly = cancel_all-IsOrderly s.handlers v.orderly;
  stopped = λ c. refl;
  spread = λ c. cancel_all-IsCancelled s.handlers;
})
Step-IsSafe s s' (handle ev before after h e e') v =
    subst IsSafe (sym e')
      (handle-IsSafe s ev before after h (subst IsSafe (λ i. record s { handlers = e i }) v))

-- However a listener's goroutines interleave: the counter of each `WaitGroup` is the number of
-- copies that run, and never drops below zero; the goroutine of a connection goes on from `wg.Wait`
-- only when both copies are over; a connection, accepted or remote, is closed only once its context
-- is cancelled; the context of a connection whose goroutine has returned is cancelled, and the
-- closing of its remote connection, if it has one, is registered; and a listener that has stopped
-- accepting has cancelled the contexts of all its connections.
pub Reach-IsSafe : (s : Server) → Reach initial s → IsSafe s
Reach-IsSafe s here = record { orderly = tt; stopped = λ c. c; spread = λ c. tt }
Reach-IsSafe s (next {t} r st) = Step-IsSafe t s st (Reach-IsSafe t r)
