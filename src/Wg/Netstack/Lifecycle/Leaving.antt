-- ===== src/Wg/Netstack/Lifecycle/Leaving.antt =====
-- pkg/wg/netstack.go, `Netstack`: goroutines leave the function that `Close` gives to `close.Do`.
use mathlib.Core.Path.{subst}
use point_c.Base.{
  ◌≡◌, refl, sym, ap, ◌∙◌, true, false, Bool-cases, inl, inr, none, List, [], ◌∷◌, ◌++◌, All,
  All-append, append_assoc,
}
use point_c.Wg.Netstack.Lifecycle.{
  close_endpoint, unused, running, finished, Netstack, Task, closing, closing_done, starting_down,
  closing_ep, waiting_ep, closed, sending_down, notified, sending, returned, Reader, task_step,
  do_once, close_done, System, run, Reach, here, next,
}
use point_c.Wg.Netstack.Lifecycle.Draining.{run_to, at}

-- The goroutine is not in the function of `close.Do`.
abbrev pub IsOutside : Task → Type 0
IsOutside closing_done = ⊥
IsOutside starting_down = ⊥
IsOutside closing_ep = ⊥
IsOutside waiting_ep = ⊥
IsOutside _ = Unit {0}

-- `Close` has returned nil, and `WriteNotify` has returned. The announcement of the end may wait
-- for WireGuard to receive an event.
abbrev pub HasEnded : Task → Type 0
HasEnded (closed e) = e ≡ none
HasEnded sending_down = Unit {0}
HasEnded returned = Unit {0}
HasEnded _ = ⊥

pub HasEnded-IsOutside : (t : Task) → HasEnded t → IsOutside t
HasEnded-IsOutside (closed e) h = tt
HasEnded-IsOutside sending_down h = tt
HasEnded-IsOutside returned h = tt
HasEnded-IsOutside closing h = tt
HasEnded-IsOutside closing_done h = h
HasEnded-IsOutside starting_down h = h
HasEnded-IsOutside closing_ep h = h
HasEnded-IsOutside waiting_ep h = h
HasEnded-IsOutside notified h = tt
HasEnded-IsOutside (sending p) h = tt

pub Reach-trans : {s t u : System} → Reach s t → Reach t u → Reach s u
Reach-trans r here = r
Reach-trans r (next q st) = next (Reach-trans r q) st

close_done_open :
    (d : Netstack) → d.is_done ≡ false → close_done d ≡ (record d { is_done = true }, starting_down)
unfolding close_done
close_done_open d h = simp (h, close_done)

close_done_again :
    (d : Netstack) → d.is_done ≡ true → close_done d ≡ (record d { crashed = true }, returned)
unfolding close_done
close_done_again d h = simp (h, close_done)

pub do_once_unused :
    (d : Netstack) → d.close ≡ unused → do_once d ≡ (record d { close = running }, closing_done)
unfolding do_once
do_once_unused d h = simp (h, do_once)

pub do_once_finished : (d : Netstack) → d.close ≡ finished → do_once d ≡ (d, closed none)
unfolding do_once
do_once_finished d h = simp (h, do_once)

-- The device behind the closing of its endpoint and the end of `close.Do`.
abbrev pub over : Netstack → Netstack
over d = record d { ep_closed = true; queue = []; dropped = d.queue ++ d.dropped; close = finished }

-- From `waiting_ep` and each of the points in front of it. The goroutine that is started on the way
-- stands in front of the others.
module _ (s : System) (readers : List Reader) (after : List Task) where
  finish_waiting :
      (d : Netstack) (before : List Task)
      → Reach s (at s readers before after d waiting_ep)
      → Reach s (at s readers before after (record d { close = finished }) (closed none))
  unfolding task_step
  finish_waiting d before r = next r (run before after waiting_ep refl refl)

  finish_ep :
      (d : Netstack) (before : List Task)
      → Reach s (at s readers before after d closing_ep)
      → Reach s (at s readers before after (over d) (closed none))
  unfolding task_step close_endpoint
  finish_ep d before r =
      finish_waiting (close_endpoint d).0 before (next r (run before after closing_ep refl refl))

  finish_starting :
      (d : Netstack) (before : List Task)
      → Reach s (at s readers before after d starting_down)
      → Reach s (at s readers (sending_down ∷ before) after (over d) (closed none))
  unfolding task_step
  finish_starting d before r =
      finish_ep d (sending_down ∷ before) (next r (run before after starting_down refl refl))

  pub finish_done :
      (d : Netstack) (before : List Task)
      → d.is_done ≡ false
      → Reach s (at s readers before after d closing_done)
      → Reach s (
          at s readers
            (sending_down ∷ before)
            after
            (over (record d { is_done = true }))
            (closed none))
  unfolding task_step
  finish_done d before e r =
      let d' : Netstack = record d { is_done = true } in
      finish_starting d' before
        (run_to s readers before after d d' closing_done starting_down refl (close_done_open d e) r)

  crash_done :
      (d : Netstack) (before : List Task)
      → d.is_done ≡ true
      → Reach s (at s readers before after d closing_done)
      → Reach s (at s readers before after (record d { crashed = true }) returned)
  unfolding task_step
  crash_done d before e r =
      run_to s readers before after d (record d { crashed = true }) closing_done returned refl
        (close_done_again d e) r

  -- Out of the function of `close.Do`, from wherever the goroutine stands.
  Left : List Task → Type 0
  Left before =
      (d' : Netstack) × (front : List Task) × (t' : Task) × All HasEnded front
      × IsOutside t'
      × Reach s (at s readers (front ++ before) after d' t')

  leave :
      (d : Netstack) (before : List Task) (t : Task)
      → Reach s (at s readers before after d t)
      → Left before
  unfolding Left
  leave d before closing_done r = elim (Bool-cases d.is_done) [
    | inl e ↦ (record d { crashed = true }, [], returned, tt, tt, crash_done d before e r)
    | inr e ↦ (
      over (record d { is_done = true }),
      sending_down ∷ [],
      closed none,
      (tt, tt),
      tt,
      finish_done d before e r,
    )
  ]
  leave d before starting_down r =
      (over d, sending_down ∷ [], closed none, (tt, tt), tt, finish_starting d before r)
  leave d before closing_ep r = (over d, [], closed none, tt, tt, finish_ep d before r)
  leave d before waiting_ep r =
      (record d { close = finished }, [], closed none, tt, tt, finish_waiting d before r)
  leave d before closing r = (d, [], closing, tt, tt, r)
  leave d before (closed e) r = (d, [], closed e, tt, tt, r)
  leave d before sending_down r = (d, [], sending_down, tt, tt, r)
  leave d before notified r = (d, [], notified, tt, tt, r)
  leave d before (sending p) r = (d, [], sending p, tt, tt, r)
  leave d before returned r = (d, [], returned, tt, tt, r)

module _ (s : System) (readers : List Reader) where
  -- The system with its goroutines in two parts, of which the steps below change the second.
  abbrev pub lined : Netstack → List Task → List Task → System
  lined d before after = record { device = d; tasks = before ++ after; readers = readers }

  pub relined :
      (d : Netstack) {ts us : List Task}
      → ts ≡ us
      → Reach s (record { device = d; tasks = ts; readers = readers })
      → Reach s (record { device = d; tasks = us; readers = readers })
  relined d e r = subst (λ l. Reach s (record { device = d; tasks = l; readers = readers })) e r

  pub leave_each :
      (d : Netstack) (before after : List Task)
      → Reach s (lined d before after)
      → (d' : Netstack) × (front : List Task) × (after' : List Task) × All HasEnded front
        × All IsOutside after'
        × Reach s (lined d' (front ++ before) after')
  unfolding Left
  leave_each d before [] r = (d, [], [], tt, tt, r)
  leave_each d before (t ∷ after) r =
      let (d1, n, t', v, o, r1) = leave s readers after d before t r in
      let (d2, m, after', w, os, r2) =
        leave_each d1 ((n ++ before) ++ t' ∷ []) after
          (relined d1 (sym (append_assoc (n ++ before) (t' ∷ []) after)) r1) in
      (
        d2,
        m ++ n,
        t' ∷ after',
        All-append HasEnded m n w v,
        (o, os),
        relined d2
            (ap (λ l. l ++ after') (sym (append_assoc m (n ++ before) (t' ∷ [])))
              ∙ append_assoc (m ++ (n ++ before)) (t' ∷ []) after'
              ∙ ap (λ l. l ++ t' ∷ after') (sym (append_assoc m n before)))
            r2,
      )
