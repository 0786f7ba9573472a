-- ===== src/Wg/Netstack/Lifecycle/Draining.antt =====
-- pkg/wg/netstack.go, `Netstack`: closing `done` releases the goroutines that wait for packets.
use mathlib.Core.Path.{subst}
use point_c.Base.{
  ◌≡◌, refl, sym, ap, true, inl, inr, List, [], ◌∷◌, ◌++◌, Bytes, All, append_assoc, List-cases,
  suc, length,
}
use point_c.Wg.Netstack.{done}
use point_c.Wg.Netstack.Lifecycle.{
  Netstack, Task, closing, closing_done, starting_down, closing_ep, waiting_ep, closed,
  sending_down, notified, sending, returned, Reader, reading, received, task_step, spawned,
  read_endpoint, drop_packet, System, run, read_done, Reach, here, next,
}

-- The `Read` has returned.
abbrev pub HasReturned : Reader → Type 0
HasReturned reading = ⊥
HasReturned (received r) = Unit {0}

-- The goroutine is not in `WriteNotify`.
abbrev HasSent : Task → Type 0
HasSent notified = ⊥
HasSent (sending p) = ⊥
HasSent _ = Unit {0}

pub drop_packet_done :
    (d : Netstack) (p : Bytes)
    → d.is_done ≡ true
    → drop_packet d p ≡ (record d { dropped = p ∷ d.dropped }, returned)
unfolding drop_packet
drop_packet_done d p h = simp (h, drop_packet)

pub read_endpoint_empty : (d : Netstack) → d.queue ≡ [] → read_endpoint d ≡ (d, returned)
unfolding read_endpoint
read_endpoint_empty d h = simp (h, read_endpoint)

pub read_endpoint_packet :
    (d : Netstack) (p : Bytes) (ps : List Bytes)
    → d.queue ≡ p ∷ ps
    → read_endpoint d ≡ (record d { queue = ps }, sending p)
unfolding read_endpoint
read_endpoint_packet d p ps h = simp (h, read_endpoint)

module _ (s : System) where
  pub drain_readers :
      (d : Netstack) (tasks : List Task) (rb ra : List Reader)
      → d.is_done ≡ true
      → Reach s (record { device = d; tasks = tasks; readers = rb ++ ra })
      → (ra' : List Reader) × (length ra' ≡ length ra)
        × All HasReturned ra'
        × Reach s (record { device = d; tasks = tasks; readers = rb ++ ra' })
  drain_readers d tasks rb [] h r = ([], refl, tt, r)
  drain_readers d tasks rb (received x ∷ ra) h r =
      let (ra', n, v, r') = drain_readers d tasks (rb ++ received x ∷ []) ra h (
        subst (λ l. Reach s (record { device = d; tasks = tasks; readers = l }))
          (sym (append_assoc rb (received x ∷ []) ra)) r) in
      (
        received x ∷ ra',
        ap suc n,
        (tt, v),
        subst (λ l. Reach s (record { device = d; tasks = tasks; readers = l }))
            (append_assoc rb (received x ∷ []) ra') r',
      )
  drain_readers d tasks rb (reading ∷ ra) h r =
      let (ra', n, v, r') = drain_readers d tasks (rb ++ received done ∷ []) ra h (
        subst (λ l. Reach s (record { device = d; tasks = tasks; readers = l }))
          (sym (append_assoc rb (received done ∷ []) ra)) (next r (read_done rb ra h refl refl))) in
      (
        received done ∷ ra',
        ap suc n,
        (tt, v),
        subst (λ l. Reach s (record { device = d; tasks = tasks; readers = l }))
            (append_assoc rb (received done ∷ []) ra') r',
      )

  module _ (readers : List Reader) (before after : List Task) where
    -- The system with one goroutine in focus.
    abbrev pub at : Netstack → Task → System
    at d t = record { device = d; tasks = before ++ t ∷ after; readers = readers }

    abbrev Sent : Type 0
    Sent = (d' : Netstack) × (t' : Task) × (d'.is_done ≡ true) × HasSent t' × Reach s (at d' t')

    -- A step of the goroutine, by its result.
    pub run_to :
        (d d' : Netstack) (t t' : Task)
        → spawned t ≡ []
        → task_step d t ≡ (d', t')
        → Reach s (at d t)
        → Reach s (at d' t')
    run_to d d' t t' q e r = next r (
        run before after t refl (λ i. record {
          device = (sym e i).0;
          tasks = sym q i ++ (before ++ (sym e i).1 ∷ after);
          readers = readers;
        }))

    drop_sending : (d : Netstack) (p : Bytes) → d.is_done ≡ true → Reach s (at d (sending p)) → Sent
    unfolding task_step
    drop_sending d p h r =
        let d' : Netstack = record d { dropped = p ∷ d.dropped } in
        (d', returned, h, tt, run_to d d' (sending p) returned refl (drop_packet_done d p h) r)

    finish_notified : (d : Netstack) → d.is_done ≡ true → Reach s (at d notified) → Sent
    unfolding task_step
    finish_notified d h r = elim (List-cases d.queue) [
      | inl e ↦ (d, returned, h, tt, run_to d d notified returned refl (read_endpoint_empty d e) r)
      | inr (p, ps, e) ↦
          let d' : Netstack = record d { queue = ps } in
          drop_sending d' p h
            (run_to d d' notified (sending p) refl (read_endpoint_packet d p ps e) r)
    ]

    finish_task : (d : Netstack) (t : Task) → d.is_done ≡ true → Reach s (at d t) → Sent
    finish_task d notified h r = finish_notified d h r
    finish_task d (sending p) h r = drop_sending d p h r
    finish_task d closing h r = (d, closing, h, tt, r)
    finish_task d closing_done h r = (d, closing_done, h, tt, r)
    finish_task d starting_down h r = (d, starting_down, h, tt, r)
    finish_task d closing_ep h r = (d, closing_ep, h, tt, r)
    finish_task d waiting_ep h r = (d, waiting_ep, h, tt, r)
    finish_task d (closed e) h r = (d, closed e, h, tt, r)
    finish_task d sending_down h r = (d, sending_down, h, tt, r)
    finish_task d returned h r = (d, returned, h, tt, r)

  drain_tasks :
      (d : Netstack) (readers : List Reader) (before after : List Task)
      → d.is_done ≡ true
      → Reach s (record { device = d; tasks = before ++ after; readers = readers })
      → (d' : Netstack) × (after' : List Task) × (d'.is_done ≡ true)
        × (length after' ≡ length after)
        × All HasSent after'
        × Reach s (record { device = d'; tasks = before ++ after'; readers = readers })
  drain_tasks d readers before [] h r = (d, [], h, refl, tt, r)
  drain_tasks d readers before (t ∷ after) h r =
      let (d', t', h', v, r') = finish_task readers before after d t h r in
      let (d'', after', h'', n, vs, r'') = drain_tasks d' readers (before ++ t' ∷ []) after h' (
        subst (λ l. Reach s (record { device = d'; tasks = l; readers = readers }))
          (sym (append_assoc before (t' ∷ []) after)) r') in
      (
        d'',
        t' ∷ after',
        h'',
        ap suc n,
        (v, vs),
        subst (λ l. Reach s (record { device = d''; tasks = l; readers = readers }))
            (append_assoc before (t' ∷ []) after') r'',
      )

-- Once `done` is closed, nobody waits for a packet for ever: from every state there are steps that
-- lead to one with as many goroutines and as many calls of `Read`, in which every `WriteNotify` and
-- every `Read` has returned.
Reach-HasReturned :
    (s : System)
    → s.device.is_done ≡ true
    → (s' : System) × Reach s s'
      × (length s'.tasks ≡ length s.tasks)
      × (length s'.readers ≡ length s.readers)
      × All HasSent s'.tasks
      × All HasReturned s'.readers
Reach-HasReturned s h =
    let (d, tasks, h', m, v, r) = drain_tasks s s.device s.readers [] s.tasks h here in
    let (readers, n, w, r') = drain_readers s d tasks [] s.readers h' r in
    (record { device = d; tasks = tasks; readers = readers }, r', m, n, v, w)
