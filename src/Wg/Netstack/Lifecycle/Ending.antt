-- ===== src/Wg/Netstack/Lifecycle/Ending.antt =====
-- pkg/wg/netstack.go, `Netstack`: a device on which `Close` is called comes to its end.
use point_c.Base.{
  ℕ, ◌≡◌, refl, sym, Bool, true, false, ◌⊎◌, inl, inr, none, List, [], ◌∷◌, ◌++◌, All, All-append,
  append_assoc, All-mono, All-split, List-cases, total, length, arith,
}
use point_c.Wg.Netstack.Lifecycle.{
  Once, unused, running, finished, Netstack, Task, closing, closing_done, starting_down, closing_ep,
  waiting_ep, closed, sending_down, notified, sending, returned, Reader, task_step, System,
  call_close, Reach, here, next, initial,
}
use point_c.Wg.Netstack.Lifecycle.Counts.{before_done, behind_done, Balance, Knows}
use point_c.Wg.Netstack.Lifecycle.Intact.{Reach-IsIntact}
use point_c.Wg.Netstack.Lifecycle.Draining.{
  HasReturned, drop_packet_done, read_endpoint_empty, read_endpoint_packet, drain_readers, run_to,
  at,
}
use point_c.Wg.Netstack.Lifecycle.Leaving.{
  IsOutside, HasEnded, HasEnded-IsOutside, Reach-trans, do_once_unused, do_once_finished,
  finish_done, over, leave_each, relined, lined,
}

outside_totals :
    (ts : List Task) → All IsOutside ts → (total before_done ts ≡ 0) × (total behind_done ts ≡ 0)
outside_totals [] o = (refl, refl)
outside_totals (t ∷ ts) (o, os) =
    let (b, a) = outside_totals ts os in
    let (b', a') = outside t o in (omega (arith, b, b'), omega (arith, a, a'))
  where
    outside : (t : Task) → IsOutside t → (before_done t ≡ 0) × (behind_done t ≡ 0)
    outside closing o = (refl, refl)
    outside (closed e) o = (refl, refl)
    outside sending_down o = (refl, refl)
    outside notified o = (refl, refl)
    outside (sending p) o = (refl, refl)
    outside returned o = (refl, refl)
    outside closing_done o = absurd o
    outside starting_down o = absurd o
    outside closing_ep o = absurd o
    outside waiting_ep o = absurd o

-- While nobody is in the function of `close.Do`, it has not been called, or it is over.
Balance-cases :
    (c : Once) (b : Bool) (n m : ℕ)
    → n ≡ 0
    → m ≡ 0
    → Balance c b n m
    → ((c ≡ unused) × (b ≡ false)) ⊎ ((c ≡ finished) × (b ≡ true))
Balance-cases unused false n m p q h = inl (refl, refl)
Balance-cases unused true n m p q h = absurd h
Balance-cases running false n m p q h = absurd (omega (arith, p, h.0))
Balance-cases running true n m p q h = absurd (omega (arith, q, h.1))
Balance-cases finished false n m p q h = absurd h
Balance-cases finished true n m p q h = inr (refl, refl)

module _ (s : System) (readers : List Reader) (reached : Reach initial s) where
  -- One call of `Close`, when nobody else is in the function of `close.Do`.
  close_once :
      (d : Netstack) (front after : List Task)
      → All HasEnded front
      → All IsOutside after
      → Reach s (at s readers front after d closing)
      → (d' : Netstack) × (front' : List Task) × All HasEnded front'
        × (d'.close ≡ finished)
        × (d'.is_done ≡ true)
        × Reach s (at s readers front' after d' (closed none))
  unfolding task_step
  close_once d front after v o r =
      let intact = Reach-IsIntact (at s readers front after d closing) (Reach-trans reached r) in
      let (b, a) = outside_totals (front ++ closing ∷ after) (
        All-append IsOutside front (closing ∷ after) (All-mono HasEnded-IsOutside front v)
          (tt, o)) in
      elim (Balance-cases d.close d.is_done (total before_done (front ++ closing ∷ after))
        (total behind_done (front ++ closing ∷ after)) b a intact.balance) [
          | inr (c, e) ↦ (
            d,
            front,
            v,
            c,
            e,
            run_to s readers front after d d closing (closed none) refl (do_once_finished d c) r,
          )
          | inl (c, e) ↦
              let d1 : Netstack = record d { close = running } in
              (
                over (record d1 { is_done = true }),
                sending_down ∷ front,
                (tt, v),
                refl,
                refl,
                finish_done s readers after d1 front e (
                    run_to s readers front after d d1 closing closing_done refl (do_once_unused d c)
                      r),
              )
        ]

  -- The other goroutines, once the device is closed.
  settle :
      (d : Netstack) (before after : List Task) (t : Task)
      → IsOutside t
      → d.close ≡ finished
      → d.is_done ≡ true
      → Reach s (at s readers before after d t)
      → (d' : Netstack) × (t' : Task) × HasEnded t'
        × (d'.close ≡ finished)
        × (d'.is_done ≡ true)
        × Reach s (at s readers before after d' t')
  unfolding task_step
  settle d before after closing o c e r = (
    d,
    closed none,
    refl,
    c,
    e,
    run_to s readers before after d d closing (closed none) refl (do_once_finished d c) r,
  )
  settle d before after (closed x) o c e r =
      let intact =
        Reach-IsIntact (at s readers before after d (closed x)) (Reach-trans reached r) in
      let known = All-split (Knows d.close d.ep_closed) before after (closed x) intact.known in
      (d, closed x, known.1.1, c, e, r)
  settle d before after sending_down o c e r = (d, sending_down, tt, c, e, r)
  settle d before after returned o c e r = (d, returned, tt, c, e, r)
  settle d before after (sending p) o c e r =
      let d' : Netstack = record d { dropped = p ∷ d.dropped } in
      (
        d',
        returned,
        tt,
        c,
        e,
        run_to s readers before after d d' (sending p) returned refl (drop_packet_done d p e) r,
      )
  settle d before after notified o c e r = elim (List-cases d.queue) [
    | inl q ↦ (
      d,
      returned,
      tt,
      c,
      e,
      run_to s readers before after d d notified returned refl (read_endpoint_empty d q) r,
    )
    | inr (p, ps, q) ↦
        let d1 : Netstack = record d { queue = ps } in
        let d2 : Netstack = record d1 { dropped = p ∷ d.dropped } in
        (
          d2,
          returned,
          tt,
          c,
          e,
          run_to s readers before after d1 d2 (sending p) returned refl (drop_packet_done d1 p e) (
              run_to s readers before after d d1 notified (sending p) refl
                (read_endpoint_packet d p ps q) r),
        )
  ]
  settle d before after closing_done o c e r = absurd o
  settle d before after starting_down o c e r = absurd o
  settle d before after closing_ep o c e r = absurd o
  settle d before after waiting_ep o c e r = absurd o

  settle_each :
      (d : Netstack) (before after : List Task)
      → All IsOutside after
      → d.close ≡ finished
      → d.is_done ≡ true
      → Reach s (lined s readers d before after)
      → (d' : Netstack) × (after' : List Task) × All HasEnded after'
        × (d'.close ≡ finished)
        × (d'.is_done ≡ true)
        × Reach s (lined s readers d' before after')
  settle_each d before [] o c e r = (d, [], tt, c, e, r)
  settle_each d before (t ∷ after) (o, os) c e r =
      let (d1, t', v, c1, e1, r1) = settle d before after t o c e r in
      let (d2, after', vs, c2, e2, r2) =
        settle_each d1 (before ++ t' ∷ []) after os c1 e1
          (relined s readers d1 (sym (append_assoc before (t' ∷ []) after)) r1) in
      (
        d2,
        t' ∷ after',
        (v, vs),
        c2,
        e2,
        relined s readers d2 (append_assoc before (t' ∷ []) after') r2,
      )

-- A call of `Close` comes to its end, and all others with it: from every state that a device
-- reaches, when `Close` is called there, steps lead to a state in which every `Close` has returned
-- nil, every `WriteNotify` and every `Read` has returned, `done` is closed, and the function of
-- `close.Do` is over. The announcement of the end waits at most for WireGuard to receive an event.
pub Reach-HasEnded :
    (s : System)
    → Reach initial s
    → (s' : System) × Reach (record s { tasks = closing ∷ s.tasks }) s'
      × All HasEnded s'.tasks
      × (length s'.readers ≡ length s.readers)
      × All HasReturned s'.readers
      × (s'.device.is_done ≡ true)
      × (s'.device.close ≡ finished)
Reach-HasEnded s r =
    let from : System = record s { tasks = closing ∷ s.tasks } in
    let reached = next r (call_close refl) in
    let (d1, front, after, v, o, r1) =
      leave_each from s.readers s.device (closing ∷ []) s.tasks here in
    let (d2, front', w, c, e, r2) =
      close_once from s.readers reached d1 front after v o
        (relined from s.readers d1 (append_assoc front (closing ∷ []) after) r1) in
    let (d3, after', u, c', e', r3) =
      settle_each from s.readers reached d2 (front' ++ closed none ∷ []) after o c e
        (relined from s.readers d2 (sym (append_assoc front' (closed none ∷ []) after)) r2) in
    let tasks = (front' ++ closed none ∷ []) ++ after' in
    let (readers, n, h, r4) = drain_readers from d3 tasks [] s.readers e' r3 in
    (
      record { device = d3; tasks = tasks; readers = readers },
      r4,
      All-append HasEnded (front' ++ closed none ∷ []) after'
          (All-append HasEnded front' (closed none ∷ []) w (refl, tt)) u,
      n,
      h,
      e',
      c',
    )
