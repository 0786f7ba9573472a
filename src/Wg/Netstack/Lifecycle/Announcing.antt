-- ===== src/Wg/Netstack/Lifecycle/Announcing.antt =====
-- pkg/wg/netstack.go, `Netstack`: the announcement of the end to WireGuard.
use point_c.Base.{
  ℕ, zero, suc, ◌+◌, ◌≡◌, refl, Bool, true, false, List, [], ◌∷◌, ◌++◌, arith, total, List-cases,
  Bool-cases, inl, inr, ◌⊎◌, sym, ap, ◌∙◌, append-nil,
}
use point_c.Wg.Netstack.Lifecycle.{
  TunEvent, event_up, event_down, Once, unused, running, finished, Netstack, Task, closing,
  closing_done, starting_down, closing_ep, waiting_ep, closed, sending_down, notified, sending,
  returned, do_once, close_done, close_endpoint, send_down, read_endpoint, drop_packet, task_step,
  spawned,
}
use point_c.Wg.Netstack.Lifecycle.Counts.{before_done, behind_done, owes_down, Balance}

abbrev downs : ℕ → List TunEvent
downs zero = []
downs (suc n) = event_down ∷ downs n

-- The number of announcements that are made or owed.
abbrev due : Once → ℕ
due unused = 0
due _ = 1

downs-snoc : (n : ℕ) → downs n ++ event_down ∷ [] ≡ downs (suc n)
downs-snoc zero = refl
downs-snoc (suc n) = ap (λ es. event_down ∷ es) (downs-snoc n)

-- What WireGuard has received and is about to receive: the start, and `n` times the end, which is
-- announced or owed once `Close` has been called.
pub record Announced (c : Once) (heard : List TunEvent) (owed : ℕ) : Type 0 where
  pub ends : ℕ
  pub sequence : heard ≡ event_up ∷ downs ends
  pub once : ends + owed ≡ due c

send_down-Announced :
    (d : Netstack) (o : ℕ)
    → Announced d.close (d.seen ++ d.events) (1 + o)
    → let d' = (send_down d).0 in
      Announced d'.close (d'.seen ++ d'.events) (owes_down (send_down d).1 + o)
unfolding send_down
send_down-Announced d o h = elim (List-cases d.events) [
  | inl e ↦
      rw (e, send_down)
        (record {
          ends = suc h.ends;
          sequence =
              ap (λ es. es ++ event_down ∷ [])
                (sym (append-nil d.seen) ∙ ap (◌++◌ d.seen) (sym e) ∙ h.sequence)
              ∙ ap (λ es. event_up ∷ es) (downs-snoc h.ends);
          once = omega (arith, h.once);
        })
  | inr (x, xs, e) ↦
      rw (e, send_down) (record { ends = h.ends; sequence = h.sequence; once = h.once })
]

-- The same announcements, under another state of `close` and other owing goroutines.
Announced-eq :
    (c c' : Once) (heard : List TunEvent) (o o' : ℕ)
    → o + due c' ≡ o' + due c
    → Announced c heard o
    → Announced c' heard o'
Announced-eq c c' heard o o' same h = record {
  ends = h.ends;
  sequence = h.sequence;
  once = omega (arith, h.once);
}

do_once-Announced :
    (d : Netstack) (o : ℕ)
    → Announced d.close (d.seen ++ d.events) o
    → let d' = (do_once d).0 in
      Announced d'.close (d'.seen ++ d'.events) (owes_down (do_once d).1 + o)
unfolding do_once
do_once-Announced d o h = elim (Once-cases d.close) [
  | inl e ↦
      rw (e, do_once)
        (Announced-eq unused running (d.seen ++ d.events) o (1 + o) (omega arith) (rw e at h))
  | inr (inl e) ↦
      rw (e, do_once)
        (Announced-eq running d.close (d.seen ++ d.events) o (0 + o) (rw e (omega arith))
          (rw e at h))
  | inr (inr e) ↦
      rw (e, do_once)
        (Announced-eq finished d.close (d.seen ++ d.events) o (0 + o) (rw e (omega arith))
          (rw e at h))
]
  where
    Once-cases : (c : Once) → (c ≡ unused) ⊎ (c ≡ running) ⊎ (c ≡ finished)
    Once-cases unused = inl refl
    Once-cases running = inr (inl refl)
    Once-cases finished = inr (inr refl)

pub Announced-owed :
    (c : Once) (heard : List TunEvent) (o o' : ℕ)
    → o ≡ o'
    → Announced c heard o
    → Announced c heard o'
Announced-owed c heard o o' e = Announced-eq c c heard o o' (omega (arith, e))

-- The function of `close.Do` runs only while `close` says so.
running_due : (c : Once) (b : Bool) (k a : ℕ) → Balance c b k (1 + a) → due c ≡ 1
running_due unused false k a h = omega (arith, h.1)
running_due unused true k a h = absurd h
running_due running false k a h = refl
running_due running true k a h = refl
running_due finished b k a h = refl

not_done : (c : Once) (b a : ℕ) → Balance c true (1 + b) a → ⊥
not_done unused b a h = h
not_done running b a h = omega (arith, h.0)
not_done finished b a h = omega (arith, h.0)

pub step-Announced :
    (d : Netstack) (t : Task) (o b a : ℕ)
    → Balance d.close d.is_done (before_done t + b) (behind_done t + a)
    → Announced d.close (d.seen ++ d.events) (owes_down t + o)
    → let d' = (task_step d t).0 in
      Announced d'.close
        (d'.seen ++ d'.events)
        (total owes_down (spawned t) + (owes_down (task_step d t).1 + o))
unfolding task_step close_done close_endpoint read_endpoint drop_packet
step-Announced d closing o b a h n =
    let r = do_once d in
    Announced-owed r.0.close (r.0.seen ++ r.0.events) (owes_down r.1 + o) (0 + (owes_down r.1 + o))
      (omega arith)
      (do_once-Announced d o
        (Announced-owed d.close (d.seen ++ d.events) (0 + o) o (omega arith) n))
step-Announced d closing_done o b a h n = elim (Bool-cases d.is_done) [
  | inl e ↦ absurd (not_done d.close b (0 + a) (rw e at h))
  | inr e ↦
      rw (e, close_done)
        (Announced-owed d.close (d.seen ++ d.events) (1 + o) (0 + (1 + o)) (omega arith) n)
]
step-Announced d starting_down o b a h n =
    Announced-owed d.close (d.seen ++ d.events) (1 + o) (1 + 0 + (0 + o)) (omega arith) n
step-Announced d closing_ep o b a h n =
    Announced-owed d.close (d.seen ++ d.events) (0 + o) (0 + (0 + o)) (omega arith) n
step-Announced d waiting_ep o b a h n =
    Announced-eq d.close finished (d.seen ++ d.events) (0 + o) (0 + (0 + o))
      (omega (arith, running_due d.close d.is_done (0 + b) a h)) n
step-Announced d sending_down o b a h n =
    let r = send_down d in
    Announced-owed r.0.close (r.0.seen ++ r.0.events) (owes_down r.1 + o) (0 + (owes_down r.1 + o))
      (omega arith) (send_down-Announced d o n)
step-Announced d notified o b a h n = elim (List-cases d.queue) [
  | inl e ↦
      rw (e, read_endpoint)
        (Announced-owed d.close (d.seen ++ d.events) (0 + o) (0 + (0 + o)) (omega arith) n)
  | inr (x, xs, e) ↦
      rw (e, read_endpoint)
        (Announced-owed d.close (d.seen ++ d.events) (0 + o) (0 + (0 + o)) (omega arith) n)
]
step-Announced d (sending p) o b a h n = elim (Bool-cases d.is_done) [
  | inl e ↦
      rw (e, drop_packet)
        (Announced-owed d.close (d.seen ++ d.events) (0 + o) (0 + (0 + o)) (omega arith) n)
  | inr e ↦
      rw (e, drop_packet)
        (Announced-owed d.close (d.seen ++ d.events) (0 + o) (0 + (0 + o)) (omega arith) n)
]
step-Announced d (closed e) o b a h n =
    Announced-owed d.close (d.seen ++ d.events) (0 + o) (0 + (0 + o)) (omega arith) n
step-Announced d returned o b a h n =
    Announced-owed d.close (d.seen ++ d.events) (0 + o) (0 + (0 + o)) (omega arith) n
