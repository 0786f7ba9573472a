-- ===== src/Wg/Netstack/Lifecycle/Intact.antt =====
-- pkg/wg/netstack.go, `Netstack`: what holds however the goroutines that share the device
-- interleave.
use mathlib.Core.Path.{subst}
use point_c.Base.{
  ℕ, ◌+◌, ◌≡◌, refl, sym, ap, ◌∙◌, true, List, [], ◌∷◌, ◌++◌, Bytes, arith, All-append, All-split,
  total, total-append, total-split, append_assoc,
}
use point_c.Wg.Netstack.{done, packet}
use point_c.Wg.Netstack.Lifecycle.{
  TunEvent, Netstack, Task, closing, notified, sending, returned, Reader, reading, received, System,
  Step, run, hand_over, read_done, take_event, call_read, call_close, write_packet, Reach, here,
  next, initial,
}
use point_c.Wg.Netstack.Lifecycle.Announcing.{Announced-owed}
use point_c.Wg.Netstack.Lifecycle.Counts.{before_done, behind_done, owes_down, holds, Knows}
use point_c.Wg.Netstack.Lifecycle.Running.{hears, Heard, IsIntact, Balance-eq, run-IsIntact}

-- A packet goes from `WriteNotify` to a `Read`.
hand_over-IsIntact :
    (d : Netstack) (p : Bytes) (before after : List Task) (rb ra : List Reader)
    → IsIntact
        (record { device = d; tasks = before ++ sending p ∷ after; readers = rb ++ reading ∷ ra })
    → IsIntact (record {
      device = d;
      tasks = before ++ returned ∷ after;
      readers = rb ++ received (packet p) ∷ ra;
    })
hand_over-IsIntact d p before after rb ra v =
    let tasks = before ++ sending p ∷ after in
    let tasks' = before ++ returned ∷ after in
    let known = All-split (Knows d.close d.ep_closed) before after (sending p) v.known in
    let heard = All-split (Heard d.is_done) rb ra reading v.heard in
    record {
      safe = v.safe;
      balance =
          Balance-eq d.close d.is_done (same before_done (omega arith))
            (same behind_done (omega arith)) v.balance;
      announced =
          Announced-owed d.close (d.seen ++ d.events) (total owes_down tasks)
            (total owes_down tasks') (same owes_down (omega arith)) v.announced;
      packets = λ w. omega (
        arith,
        v.packets w,
        total-split (holds w) before after (sending p),
        total-split (holds w) before after returned,
        total-split (hears w) rb ra reading,
        total-split (hears w) rb ra (received (packet p)),
      );
      open_kept = v.open_kept;
      known =
          All-append (Knows d.close d.ep_closed) before (returned ∷ after) known.0 (tt, known.2);
      settled = v.settled;
      heard = All-append (Heard d.is_done) rb (received (packet p) ∷ ra) heard.0 (tt, heard.2);
    }
  where
    same :
        (f : Task → ℕ)
        → f (sending p) ≡ f returned
        → total f (before ++ sending p ∷ after) ≡ total f (before ++ returned ∷ after)
    same f e =
        omega (arith, total-split f before after (sending p), total-split f before after returned)

read_done-IsIntact :
    (d : Netstack) (tasks : List Task) (rb ra : List Reader)
    → d.is_done ≡ true
    → IsIntact (record { device = d; tasks = tasks; readers = rb ++ reading ∷ ra })
    → IsIntact (record { device = d; tasks = tasks; readers = rb ++ received done ∷ ra })
read_done-IsIntact d tasks rb ra e v =
    let heard = All-split (Heard d.is_done) rb ra reading v.heard in
    record {
      safe = v.safe;
      balance = v.balance;
      announced = v.announced;
      packets = λ w. omega (
        arith,
        v.packets w,
        total-split (hears w) rb ra reading,
        total-split (hears w) rb ra (received done),
      );
      open_kept = v.open_kept;
      known = v.known;
      settled = v.settled;
      heard = All-append (Heard d.is_done) rb (received done ∷ ra) heard.0 (e, heard.2);
    }

-- A new goroutine that is in front of its first statement.
started-IsIntact :
    (s : System) (t : Task)
    → ((w : Bytes → ℕ)
        → (before_done t ≡ 0) × (behind_done t ≡ 0) × (owes_down t ≡ 0) × (holds w t ≡ 0))
    → Knows s.device.close s.device.ep_closed t
    → IsIntact s
    → IsIntact (record s { tasks = t ∷ s.tasks })
started-IsIntact s t light k v =
    let (b, a, o, h) = light (λ p. 0) in
    record {
      safe = v.safe;
      balance =
          Balance-eq s.device.close s.device.is_done (omega (arith, b)) (omega (arith, a))
            v.balance;
      announced =
          Announced-owed s.device.close (s.device.seen ++ s.device.events) (total owes_down s.tasks)
            (owes_down t + total owes_down s.tasks) (omega (arith, o)) v.announced;
      packets = λ w. omega (arith, v.packets w, (light w).3);
      open_kept = v.open_kept;
      known = (k, v.known);
      settled = v.settled;
      heard = v.heard;
    }

written-IsIntact :
    (s : System) (p : Bytes)
    → IsIntact s
    → IsIntact (record s {
      device = record s.device { queue = s.device.queue ++ p ∷ []; written = p ∷ s.device.written };
    })
written-IsIntact s p v = record {
  safe = v.safe;
  balance = v.balance;
  announced = v.announced;
  packets = λ w. omega (arith, v.packets w, total-append w s.device.queue (p ∷ []));
  open_kept = v.open_kept;
  known = v.known;
  settled = v.settled;
  heard = v.heard;
}

event-IsIntact :
    (s : System) (e : TunEvent) (es : List TunEvent)
    → s.device.events ≡ e ∷ es
    → IsIntact s
    → IsIntact
        (record s { device = record s.device { events = es; seen = s.device.seen ++ e ∷ [] } })
event-IsIntact s e es same v = record {
  safe = v.safe;
  balance = v.balance;
  announced = record {
    ends = v.announced.ends;
    sequence =
        append_assoc s.device.seen (e ∷ []) es
        ∙ ap (◌++◌ s.device.seen) (sym same)
        ∙ v.announced.sequence;
    once = v.announced.once;
  };
  packets = v.packets;
  open_kept = v.open_kept;
  known = v.known;
  settled = v.settled;
  heard = v.heard;
}

-- Every step keeps the invariant.
Step-IsIntact : (s s' : System) → Step s s' → IsIntact s → IsIntact s'
Step-IsIntact s s' (run before after t e e') v = subst IsIntact (sym e') (
    run-IsIntact s.device before after t s.readers
      (subst IsIntact (λ i. record s { tasks = e i }) v))
Step-IsIntact s s' (hand_over p before after rb ra e r e') v = subst IsIntact (sym e') (
    hand_over-IsIntact s.device p before after rb ra
      (subst IsIntact (λ i. record s { tasks = e i; readers = r i }) v))
Step-IsIntact s s' (read_done rb ra h r e') v = subst IsIntact (sym e') (
    read_done-IsIntact s.device s.tasks rb ra h
      (subst IsIntact (λ i. record s { readers = r i }) v))
Step-IsIntact s s' (take_event e es h e') v = subst IsIntact (sym e') (event-IsIntact s e es h v)
Step-IsIntact s s' (call_read e') v = subst IsIntact (sym e') (record {
  safe = v.safe;
  balance = v.balance;
  announced = v.announced;
  packets = λ w. omega (arith, v.packets w);
  open_kept = v.open_kept;
  known = v.known;
  settled = v.settled;
  heard = (tt, v.heard);
})
Step-IsIntact s s' (call_close e') v =
    subst IsIntact (sym e') (started-IsIntact s closing (λ w. (refl, refl, refl, refl)) tt v)
Step-IsIntact s s' (write_packet p h e') v = subst IsIntact (sym e') (
    started-IsIntact
      (record s {
        device = record s.device {
          queue = s.device.queue ++ p ∷ [];
          written = p ∷ s.device.written;
        };
      })
      notified (λ w. (refl, refl, refl, refl)) tt (written-IsIntact s p v))

-- Whatever goroutines call the device, and however they interleave, the invariant `IsIntact` holds:
-- nothing closes `done` twice; WireGuard receives the start of the device, and its end at most once,
-- behind it and only if `Close` was called; every packet that the stack wrote is in the endpoint,
-- held by a `WriteNotify`, returned by one `Read`, or dropped, by a `WriteNotify` or by the closing
-- of the endpoint, and none is dropped while `done` is open; a `Read` that fails has seen `done`
-- closed; and a `Close` that has returned did so with nil, behind the closing of the endpoint.
pub Reach-IsIntact : (s : System) → Reach initial s → IsIntact s
Reach-IsIntact s here = record {
  safe = refl;
  balance = (refl, refl);
  announced = record { ends = 0; sequence = refl; once = omega arith };
  packets = λ w. omega arith;
  open_kept = refl;
  known = tt;
  settled = tt;
  heard = tt;
}
Reach-IsIntact s (next {t} r st) = Step-IsIntact t s st (Reach-IsIntact t r)
