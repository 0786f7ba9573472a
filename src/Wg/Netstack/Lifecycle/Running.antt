-- ===== src/Wg/Netstack/Lifecycle/Running.antt =====
-- pkg/wg/netstack.go, `Netstack`: the invariant of a device, and that a step of a goroutine keeps
-- it.
use point_c.Base.{
  ℕ, ◌+◌, ◌≡◌, refl, sym, Bool, true, false, List, ◌∷◌, ◌++◌, Bytes, arith, All, All-append,
  All-split, All-mono, total, total-append, total-split,
}
use point_c.Wg.Netstack.{done, packet}
use point_c.Wg.Netstack.Lifecycle.{
  Once, unused, running, finished, Netstack, Task, closing, closing_done, starting_down, closing_ep,
  waiting_ep, closed, sending_down, notified, sending, returned, Reader, reading, received,
  task_step, spawned, System,
}
use point_c.Wg.Netstack.Lifecycle.Announcing.{Announced, Announced-owed, step-Announced}
use point_c.Wg.Netstack.Lifecycle.Counts.{
  before_done, behind_done, owes_down, holds, Balance, Knows, Settled, KeepsOpen, Knows-mono,
  step-Balance, step-holds, step-KeepsOpen, step-Knows,
}

-- The weight of the packet that a call of `Read` has received.
abbrev pub hears : (Bytes → ℕ) → Reader → ℕ
hears w (received (packet p)) = w p
hears w _ = 0

-- A `Read` that returns `os.ErrClosed` has seen `done` closed.
abbrev pub Heard : Bool → Reader → Type 0
Heard b (received done) = b ≡ true
Heard b _ = Unit {0}

-- `done` is closed at most once and the events are the start, then the end, which is announced or
-- owed once after `Close`. Each packet that the stack has written is in the endpoint, in the hands
-- of `WriteNotify`, read, or dropped, as often as it was written, and none is dropped before `done`
-- is closed. A returned `Close` returns nil behind the closing of the endpoint.
pub record IsIntact (s : System) : Type 0 where
  pub safe : s.device.crashed ≡ false
  pub balance :
      Balance s.device.close s.device.is_done
        (total before_done s.tasks)
        (total behind_done s.tasks)
  pub announced :
      Announced s.device.close (s.device.seen ++ s.device.events) (total owes_down s.tasks)
  pub packets :
      (w : Bytes → ℕ)
      → total w s.device.written
        ≡ total w s.device.queue
          + (total (holds w) s.tasks + total (hears w) s.readers)
          + total w s.device.dropped
  pub open_kept : KeepsOpen s.device.is_done s.device.dropped
  pub known : All (Knows s.device.close s.device.ep_closed) s.tasks
  pub settled : Settled s.device.close s.device.ep_closed
  pub heard : All (Heard s.device.is_done) s.readers

pub Balance-eq :
    (o : Once) (b : Bool) {w w' l l' : ℕ} → w ≡ w' → l ≡ l' → Balance o b w l → Balance o b w' l'
Balance-eq unused false p q h = ground arith
Balance-eq unused true p q h = h
Balance-eq running true p q h = ground arith
Balance-eq running false p q h = ground arith
Balance-eq finished true p q h = ground arith
Balance-eq finished false p q h = h

Heard-mono : (b b' : Bool) → (b ≡ true → b' ≡ true) → (r : Reader) → Heard b r → Heard b' r
Heard-mono b b' f (received done) h = f h
Heard-mono b b' f (received (packet p)) h = tt
Heard-mono b b' f reading h = tt

-- The goroutine that is started with a step closes nothing and holds no packet.
spawned_lem :
    (w : Bytes → ℕ) (t : Task)
    → (total before_done (spawned t) ≡ 0)
      × (total behind_done (spawned t) ≡ 0)
      × (total (holds w) (spawned t) ≡ 0)
spawned_lem w starting_down = (omega arith, omega arith, omega arith)
spawned_lem w closing = (refl, refl, refl)
spawned_lem w closing_done = (refl, refl, refl)
spawned_lem w closing_ep = (refl, refl, refl)
spawned_lem w waiting_ep = (refl, refl, refl)
spawned_lem w (closed e) = (refl, refl, refl)
spawned_lem w sending_down = (refl, refl, refl)
spawned_lem w notified = (refl, refl, refl)
spawned_lem w (sending p) = (refl, refl, refl)
spawned_lem w returned = (refl, refl, refl)

spawned-Knows : (c : Once) (e : Bool) (t : Task) → All (Knows c e) (spawned t)
spawned-Knows c e starting_down = (tt, tt)
spawned-Knows c e closing = tt
spawned-Knows c e closing_done = tt
spawned-Knows c e closing_ep = tt
spawned-Knows c e waiting_ep = tt
spawned-Knows c e (closed x) = tt
spawned-Knows c e sending_down = tt
spawned-Knows c e notified = tt
spawned-Knows c e (sending p) = tt
spawned-Knows c e returned = tt

-- The sum over the goroutines behind a step.
total-spawned :
    (f : Task → ℕ) (before after : List Task) (t t' : Task)
    → total f (spawned t ++ (before ++ t' ∷ after))
      ≡ total f (spawned t) + (f t' + (total f before + total f after))
total-spawned f before after t t' =
    omega (arith, total-append f (spawned t) (before ++ t' ∷ after), total-split f before after t')

module _ (d : Netstack) (before after : List Task) (t : Task) (readers : List Reader) where
  abbrev from : System
  from = record { device = d; tasks = before ++ t ∷ after; readers = readers }

  abbrev stepped : System
  stepped = record {
    device = (task_step d t).0;
    tasks = spawned t ++ (before ++ (task_step d t).1 ∷ after);
    readers = readers;
  }

  run-Balance :
      IsIntact from
      → (stepped.device.crashed ≡ false)
        × Balance stepped.device.close stepped.device.is_done
            (total before_done stepped.tasks)
            (total behind_done stepped.tasks)
  run-Balance v =
      let t' = (task_step d t).1 in
      let d' = (task_step d t).0 in
      let (b, a, h) = spawned_lem (λ p. 0) t in
      let (safe, bal) =
        step-Balance d t (total before_done before + total before_done after)
          (total behind_done before + total behind_done after) v.safe
          (Balance-eq d.close d.is_done (total-split before_done before after t)
            (total-split behind_done before after t) v.balance) in
      (
        safe,
        Balance-eq d'.close d'.is_done
            (omega (arith, b, total-spawned before_done before after t t'))
            (omega (arith, a, total-spawned behind_done before after t t')) bal,
      )

  run-Announced :
      IsIntact from
      → Announced stepped.device.close
          (stepped.device.seen ++ stepped.device.events)
          (total owes_down stepped.tasks)
  run-Announced v =
      let d' = (task_step d t).0 in
      Announced-owed d'.close (d'.seen ++ d'.events)
        (total owes_down (spawned t)
          + (owes_down (task_step d t).1 + (total owes_down before + total owes_down after)))
        (total owes_down stepped.tasks)
        (sym (total-spawned owes_down before after t (task_step d t).1))
        (step-Announced d t (total owes_down before + total owes_down after)
          (total before_done before + total before_done after)
          (total behind_done before + total behind_done after)
          (Balance-eq d.close d.is_done (total-split before_done before after t)
            (total-split behind_done before after t) v.balance)
          (Announced-owed d.close (d.seen ++ d.events) (total owes_down (before ++ t ∷ after))
            (owes_down t + (total owes_down before + total owes_down after))
            (total-split owes_down before after t) v.announced))

  run_packets :
      IsIntact from
      → (w : Bytes → ℕ)
      → total w stepped.device.written
        ≡ total w stepped.device.queue
          + (total (holds w) stepped.tasks + total (hears w) stepped.readers)
          + total w stepped.device.dropped
  run_packets v w =
      let rest = total (holds w) before + total (holds w) after + total (hears w) readers in
      let moved =
        step-holds w d t rest (omega (arith, v.packets w, total-split (holds w) before after t)) in
      omega (
        arith,
        moved,
        (spawned_lem w t).2,
        total-spawned (holds w) before after t (task_step d t).1,
      )

  pub run-IsIntact : IsIntact from → IsIntact stepped
  run-IsIntact v =
      let (safe, balance) = run-Balance v in
      let (kept, longer) =
        step-KeepsOpen d t (total before_done before + total before_done after)
          (total behind_done before + total behind_done after)
          (Balance-eq d.close d.is_done (total-split before_done before after t)
            (total-split behind_done before after t) v.balance)
          v.open_kept in
      let d' = (task_step d t).0 in
      let (l, m, r) = All-split (Knows d.close d.ep_closed) before after t v.known in
      let (known, settled, f, g) = step-Knows d t m v.settled in
      let still = Knows-mono d.close d'.close d.ep_closed d'.ep_closed f g in
      record {
        safe = safe;
        balance = balance;
        announced = run-Announced v;
        packets = run_packets v;
        open_kept = kept;
        known =
            All-append (Knows d'.close d'.ep_closed) (spawned t)
              (before ++ (task_step d t).1 ∷ after) (spawned-Knows d'.close d'.ep_closed t)
              (All-append (Knows d'.close d'.ep_closed) before ((task_step d t).1 ∷ after)
                (All-mono still before l) (known, All-mono still after r));
        settled = settled;
        heard = All-mono (Heard-mono d.is_done d'.is_done longer) readers v.heard;
      }
