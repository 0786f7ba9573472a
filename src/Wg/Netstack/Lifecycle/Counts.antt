-- ===== src/Wg/Netstack/Lifecycle/Counts.antt =====
-- pkg/wg/netstack.go, `Netstack`: what one step of a goroutine does to the counts of the invariant.
use point_c.Base.{
  ℕ, ◌+◌, ◌≡◌, refl, Bool, true, false, none, List, [], Bytes, arith, total, total-append, ◌++◌,
}
use point_c.Wg.Netstack.Lifecycle.{
  Once, unused, running, finished, Netstack, Task, closing, closing_done, starting_down, closing_ep,
  waiting_ep, closed, sending_down, notified, sending, returned, do_once, close_done,
  close_endpoint, send_down, read_endpoint, drop_packet, task_step,
}

-- In the function of `close.Do`, in front of the closing of `done`, and behind it.
abbrev pub before_done : Task → ℕ
before_done closing_done = 1
before_done _ = 0

abbrev pub behind_done : Task → ℕ
behind_done starting_down = 1
behind_done closing_ep = 1
behind_done waiting_ep = 1
behind_done _ = 0

-- The end is still to be announced.
abbrev pub owes_down : Task → ℕ
owes_down closing_done = 1
owes_down starting_down = 1
owes_down sending_down = 1
owes_down _ = 0

-- The weight of the packet that a goroutine holds.
abbrev pub holds : (Bytes → ℕ) → Task → ℕ
holds w (sending p) = w p
holds w _ = 0

-- `close`, `done` and the number of goroutines in the function of `close.Do` fit together.
abbrev pub Balance : Once → Bool → ℕ → ℕ → Type 0
Balance unused false b a = (b ≡ 0) × (a ≡ 0)
Balance unused true b a = ⊥
Balance running false b a = (b ≡ 1) × (a ≡ 0)
Balance running true b a = (b ≡ 0) × (a ≡ 1)
Balance finished false b a = ⊥
Balance finished true b a = (b ≡ 0) × (a ≡ 0)

-- What a goroutine knows: behind the closing of the endpoint, and after `Close` has returned.
abbrev pub Knows : Once → Bool → Task → Type 0
Knows c e waiting_ep = e ≡ true
Knows c e (closed x) = (c ≡ finished) × (x ≡ none)
Knows c e _ = Unit {0}

-- A finished `close` has closed the endpoint.
abbrev pub Settled : Once → Bool → Type 0
Settled finished e = e ≡ true
Settled _ e = Unit {0}

pub step-Balance :
    (d : Netstack) (t : Task) (b a : ℕ)
    → d.crashed ≡ false
    → Balance d.close d.is_done (before_done t + b) (behind_done t + a)
    → let d' = (task_step d t).0 in
      let t' = (task_step d t).1 in
      (d'.crashed ≡ false) × Balance d'.close d'.is_done (before_done t' + b) (behind_done t' + a)
unfolding task_step do_once close_done close_endpoint send_down read_endpoint drop_packet
step-Balance d closing b a c h = ground arith
step-Balance d closing_done b a c h = ground arith
step-Balance d starting_down b a c h = (c, h)
step-Balance d closing_ep b a c h = (c, h)
step-Balance d waiting_ep b a c h = ground arith
step-Balance d sending_down b a c h = ground arith
step-Balance d notified b a c h = ground arith
step-Balance d (sending p) b a c h = ground arith
step-Balance d (closed e) b a c h = (c, h)
step-Balance d returned b a c h = (c, h)

-- Packets of any weight are moved, and none is made or lost; `k` is the weight of all other
-- packets.
pub step-holds :
    (w : Bytes → ℕ) (d : Netstack) (t : Task) (k : ℕ)
    → total w d.written ≡ total w d.queue + (holds w t + k) + total w d.dropped
    → let d' = (task_step d t).0 in
      let t' = (task_step d t).1 in
      total w d'.written ≡ total w d'.queue + (holds w t' + k) + total w d'.dropped
unfolding task_step do_once close_done close_endpoint send_down read_endpoint drop_packet
step-holds w d closing k h = ground arith
step-holds w d closing_done k h = ground arith
step-holds w d starting_down k h = h
step-holds w d closing_ep k h = omega (arith, h, total-append w d.queue d.dropped)
step-holds w d waiting_ep k h = h
step-holds w d sending_down k h = ground arith
step-holds w d notified k h = ground arith
step-holds w d (sending p) k h = ground arith
step-holds w d (closed e) k h = h
step-holds w d returned k h = h

-- Nothing is dropped before the device is done, and `done` stays closed.
abbrev pub KeepsOpen : Bool → List Bytes → Type 0
KeepsOpen false dropped = dropped ≡ []
KeepsOpen true dropped = Unit {0}

behind-done : (c : Once) (b : Bool) (k a : ℕ) → Balance c b k (1 + a) → b ≡ true
behind-done unused false k a h = absurd (omega (arith, h.1))
behind-done running false k a h = absurd (omega (arith, h.1))
behind-done finished false k a h = absurd h
behind-done c true k a h = refl

KeepsOpen-true : (b : Bool) (l : List Bytes) → b ≡ true → KeepsOpen b l
KeepsOpen-true true l e = tt
KeepsOpen-true false l e = ground arith

pub step-KeepsOpen :
    (d : Netstack) (t : Task) (b a : ℕ)
    → Balance d.close d.is_done (before_done t + b) (behind_done t + a)
    → KeepsOpen d.is_done d.dropped
    → let d' = (task_step d t).0 in
      KeepsOpen d'.is_done d'.dropped × (d.is_done ≡ true → d'.is_done ≡ true)
unfolding task_step do_once close_done close_endpoint send_down read_endpoint drop_packet
step-KeepsOpen d closing b a l h = ground arith
step-KeepsOpen d closing_done b a l h = ground arith
step-KeepsOpen d starting_down b a l h = (h, λ e. e)
step-KeepsOpen d closing_ep b a l h = (
  KeepsOpen-true d.is_done (d.queue ++ d.dropped) (behind-done d.close d.is_done (0 + b) a l),
  λ e. e,
)
step-KeepsOpen d waiting_ep b a l h = (h, λ e. e)
step-KeepsOpen d sending_down b a l h = ground arith
step-KeepsOpen d notified b a l h = ground arith
step-KeepsOpen d (sending p) b a l h = ground arith
step-KeepsOpen d (closed e) b a l h = (h, λ e. e)
step-KeepsOpen d returned b a l h = (h, λ e. e)

-- What is known once stays known.
pub Knows-mono :
    (c c' : Once) (e e' : Bool)
    → (c ≡ finished → c' ≡ finished)
    → (e ≡ true → e' ≡ true)
    → (t : Task) → Knows c e t
    → Knows c' e' t
Knows-mono c c' e e' f g waiting_ep k = g k
Knows-mono c c' e e' f g (closed x) (k, l) = (f k, l)
Knows-mono c c' e e' f g closing k = tt
Knows-mono c c' e e' f g closing_done k = tt
Knows-mono c c' e e' f g starting_down k = tt
Knows-mono c c' e e' f g closing_ep k = tt
Knows-mono c c' e e' f g sending_down k = tt
Knows-mono c c' e e' f g notified k = tt
Knows-mono c c' e e' f g (sending p) k = tt
Knows-mono c c' e e' f g returned k = tt

pub step-Knows :
    (d : Netstack) (t : Task)
    → Knows d.close d.ep_closed t
    → Settled d.close d.ep_closed
    → let d' = (task_step d t).0 in
      Knows d'.close d'.ep_closed (task_step d t).1
      × Settled d'.close d'.ep_closed
      × (d.close ≡ finished → d'.close ≡ finished)
      × (d.ep_closed ≡ true → d'.ep_closed ≡ true)
unfolding task_step do_once close_done close_endpoint send_down read_endpoint drop_packet
step-Knows d closing k s = ground arith
step-Knows d closing_done k s = ground arith
step-Knows d starting_down k s = (tt, s, λ e. e, λ e. e)
step-Knows d closing_ep k s = ground arith
step-Knows d waiting_ep k s = ((refl, refl), k, λ e. refl, λ e. e)
step-Knows d sending_down k s = ground arith
step-Knows d notified k s = ground arith
step-Knows d (sending p) k s = ground arith
step-Knows d (closed e) k s = (k, s, λ e. e, λ e. e)
step-Knows d returned k s = (k, s, λ e. e, λ e. e)
