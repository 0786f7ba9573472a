-- ===== src/Forward/Handler/Closing.antt =====
-- forward.go, `forwardListener`: every connection of a cancelled listener comes to its end.
use mathlib.Core.Path.{subst}
use point_c.Base.{
  ℕ, suc, ◌+◌, ◌≤◌, ◌≡◌, refl, sym, ap, ◌∙◌, Bool, true, false, List, [], ◌∷◌, ◌++◌, All,
  append_assoc, length, arith,
}
use point_c.Forward.Handler.{
  Stage, dialing, registering, starting, starting_second, waiting, leaving, returned, Copy, copying,
  cancelling, finishing, Direction, outbound, inbound, Handler, Event, go_on, dial_returns,
  copy_returns, copy_goes_on, close_conn, close_remote, step_go_on, step_dial, step_copy_returns,
  step_copy, step_close_conn, step_close_remote, handler_step, Server, initial, handle, Reach, here,
  next,
}
use point_c.Forward.Handler.Orderly.{IsOrderly, handler_step-IsOrderly, handler_step-cancelled}
use point_c.Forward.Handler.Reached.{IsCancelled, Reach-IsSafe}

-- The goroutine has returned, and both connections are closed.
pub record IsOver (h : Handler) : Type 0 where
  pub gone : h.stage ≡ returned
  pub conn_shut : h.conn_closed ≡ true
  pub remote_shut : h.remote_open ≡ true → h.remote_closed ≡ true

abbrev rank : Stage → ℕ
rank dialing = 0
rank registering = 1
rank starting = 2
rank starting_second = 3
rank waiting = 4
rank leaving = 5
rank returned = 6

-- How many steps a copy that has begun is from its end.
abbrev left : Copy → ℕ
left copying = 3
left cancelling = 2
left finishing = 1
left _ = 0

abbrev copy_of : Direction → Handler → Copy
copy_of outbound h = h.to_remote
copy_of inbound h = h.from_remote

dial_ranks : (h : Handler) → 1 ≤ rank (step_dial false h).stage
unfolding step_dial
dial_ranks h = ground arith

go_on_ranks :
    (k : ℕ) (h : Handler) → k ≤ 3 → k ≤ rank h.stage → 1 ≤ k → k + 1 ≤ rank (step_go_on h).stage
unfolding step_go_on
go_on_ranks k h b r p = ground arith

copy_returns_left :
    (d : Direction) (b : Bool) (h : Handler)
    → (left (copy_of d (step_copy_returns d b h)) ≤ 2) × ((step_copy_returns d b h).stage ≡ h.stage)
unfolding step_copy_returns
copy_returns_left outbound b h = ground arith
copy_returns_left inbound b h = ground arith

copy_left :
    (k : ℕ) (d : Direction) (h : Handler)
    → left (copy_of d h) ≤ k + 1
    → k ≤ 1
    → (left (copy_of d (step_copy d h)) ≤ k) × ((step_copy d h).stage ≡ h.stage)
unfolding step_copy
copy_left k outbound h l b = ground arith
copy_left k inbound h l b = ground arith

-- The other copy is left alone.
inbound_keeps :
    (b : Bool) (h : Handler)
    → ((step_copy_returns inbound b h).to_remote ≡ h.to_remote)
      × ((step_copy inbound h).to_remote ≡ h.to_remote)
unfolding step_copy_returns step_copy
inbound_keeps b h = ground arith

leaves :
    (h : Handler)
    → IsOrderly h
    → 4 ≤ rank h.stage
    → left h.to_remote ≡ 0
    → left h.from_remote ≡ 0
    → 5 ≤ rank (step_go_on h).stage
unfolding step_go_on
leaves h v r o i = ground arith

returns : (h : Handler) → 5 ≤ rank h.stage → (step_go_on h).stage ≡ returned
unfolding step_go_on
returns h r = ground arith

closes :
    (h : Handler)
    → IsOrderly h
    → h.cancelled ≡ true
    → h.stage ≡ returned
    → IsOver (step_close_remote (step_close_conn h))
unfolding step_close_conn step_close_remote
closes h v c s = ground arith

abbrev run_events : List Event → Handler → Handler
run_events [] h = h
run_events (ev ∷ evs) h = run_events evs (handler_step ev h)

run_events-IsOrderly :
    (evs : List Event) (h : Handler)
    → IsOrderly h × IsCancelled h
    → IsOrderly (run_events evs h) × IsCancelled (run_events evs h)
run_events-IsOrderly [] h v = v
run_events-IsOrderly (ev ∷ evs) h (v, c) =
    run_events-IsOrderly evs (handler_step ev h)
      (handler_step-IsOrderly ev h v, handler_step-cancelled ev h c)

-- The events that bring the goroutine to `wg.Wait` or past it, those of one copy, and the last
-- ones.
abbrev opening : List Event
opening = dial_returns false ∷ go_on ∷ go_on ∷ go_on ∷ []

abbrev copy_events : Direction → List Event
copy_events d = copy_returns d false ∷ copy_goes_on d ∷ copy_goes_on d ∷ []

abbrev last_events : List Event
last_events = go_on ∷ go_on ∷ close_conn ∷ close_remote ∷ []

opens : (h : Handler) → 4 ≤ rank (run_events opening h).stage
unfolding handler_step
opens h =
    let h1 = step_dial false h in
    let h2 = step_go_on h1 in
    let h3 = step_go_on h2 in
    go_on_ranks 3 h3 (omega arith)
      (go_on_ranks 2 h2 (omega arith) (go_on_ranks 1 h1 (omega arith) (dial_ranks h) (omega arith))
        (omega arith))
      (omega arith)

copies :
    (d : Direction) (h : Handler)
    → let h' = run_events (copy_events d) h in (left (copy_of d h') ≤ 0) × (h'.stage ≡ h.stage)
unfolding handler_step
copies d h =
    let h1 = step_copy_returns d false h in
    let h2 = step_copy d h1 in
    let (l1, s1) = copy_returns_left d false h in
    let (l2, s2) = copy_left 1 d h1 (omega (arith, l1)) (omega arith) in
    let (l3, s3) = copy_left 0 d h2 (omega (arith, l2)) (omega arith) in (l3, s3 ∙ s2 ∙ s1)

inbound_copies : (h : Handler) → (run_events (copy_events inbound) h).to_remote ≡ h.to_remote
unfolding handler_step
inbound_copies h =
    let h1 = step_copy_returns inbound false h in
    let h2 = step_copy inbound h1 in
    (inbound_keeps false h2).1 ∙ (inbound_keeps false h1).1 ∙ (inbound_keeps false h).0

ends :
    (h : Handler)
    → IsOrderly h × IsCancelled h
    → 4 ≤ rank h.stage
    → left h.to_remote ≡ 0
    → left h.from_remote ≡ 0
    → IsOver (run_events last_events h)
unfolding handler_step
ends h (v, c) r o i =
    let h1 = step_go_on h in
    let h2 = step_go_on h1 in
    let (v2, c2) = run_events-IsOrderly (go_on ∷ go_on ∷ []) h (v, c) in
    closes h2 v2 c2 (returns h1 (leaves h v r o i))

-- From every stage, all these events in turn.
finish : Handler → Handler
finish h =
    run_events last_events
      (run_events (copy_events inbound) (run_events (copy_events outbound) (run_events opening h)))

finish-IsOver : (h : Handler) → IsOrderly h × IsCancelled h → IsOver (finish h)
unfolding finish
finish-IsOver h v =
    let a = run_events opening h in
    let b = run_events (copy_events outbound) a in
    let c = run_events (copy_events inbound) b in
    let va = run_events-IsOrderly opening h v in
    let vb = run_events-IsOrderly (copy_events outbound) a va in
    let vc = run_events-IsOrderly (copy_events inbound) b vb in
    let (lb, sb) = copies outbound a in
    let (lc, sc) = copies inbound b in
    ends c vc (subst (λ s. 4 ≤ rank s) (sym (sc ∙ sb)) (opens h))
      (ap left (inbound_copies b) ∙ omega (arith, lb)) (omega (arith, lc))

module _ (s : Server) (finished cancelled : Bool) where
  abbrev with_handlers : List Handler → Server
  with_handlers hs = record { finished = finished; cancelled = cancelled; handlers = hs }

  run_reaches :
      (evs : List Event) (before after : List Handler) (h : Handler)
      → Reach s (with_handlers (before ++ h ∷ after))
      → Reach s (with_handlers (before ++ run_events evs h ∷ after))
  run_reaches [] before after h r = r
  run_reaches (ev ∷ evs) before after h r =
      run_reaches evs before after (handler_step ev h) (next r (handle ev before after h refl refl))

  finish_reaches :
      (before after : List Handler) (h : Handler)
      → Reach s (with_handlers (before ++ h ∷ after))
      → Reach s (with_handlers (before ++ finish h ∷ after))
  unfolding finish
  finish_reaches before after h r =
      let a = run_events opening h in
      let b = run_events (copy_events outbound) a in
      let c = run_events (copy_events inbound) b in
      run_reaches last_events before after c (
        run_reaches (copy_events inbound) before after b (
          run_reaches (copy_events outbound) before after a (run_reaches opening before after h r)))

  finish_each :
      (before after : List Handler)
      → All IsOrderly after
      → All IsCancelled after
      → Reach s (with_handlers (before ++ after))
      → (after' : List Handler) × (length after' ≡ length after)
        × All IsOver after'
        × Reach s (with_handlers (before ++ after'))
  finish_each before [] v c r = ([], refl, tt, r)
  finish_each before (h ∷ after) (v, vs) (c, cs) r =
      let r1 = finish_reaches before after h r in
      let r2 =
        subst (λ hs. Reach s (with_handlers hs)) (sym (append_assoc before (finish h ∷ []) after))
          r1 in
      let (after', n, w, r3) = finish_each (before ++ finish h ∷ []) after vs cs r2 in
      (
        finish h ∷ after',
        ap suc n,
        (finish-IsOver h (v, c), w),
        subst (λ hs. Reach s (with_handlers hs)) (append_assoc before (finish h ∷ []) after') r3,
      )

-- No connection is left behind: from every state that a listener reaches in which its context is
-- cancelled, as it is when the app stops or `Accept` has failed, there are steps to a state with as
-- many connections in which the goroutine of each has returned, and each connection is closed, with
-- its remote connection if it has one.
pub Reach-IsOver :
    (s : Server)
    → Reach initial s
    → s.cancelled ≡ true
    → (s' : Server) × Reach s s' × (length s'.handlers ≡ length s.handlers) × All IsOver s'.handlers
Reach-IsOver s r c =
    let v = Reach-IsSafe s r in
    let (hs, n, w, r') =
      finish_each s s.finished s.cancelled [] s.handlers v.orderly (v.spread c) here in
    (record s { handlers = hs }, r', n, w)
