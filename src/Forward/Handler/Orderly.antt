-- ===== src/Forward/Handler/Orderly.antt =====
-- forward.go, `forwardListener`: what every step of a connection's goroutines keeps.
use point_c.Base.{ℕ, ◌+◌, ◌≡◌, Bool, true, false, arith}
use point_c.Forward.Handler.{
  Stage, dialing, registering, starting, starting_second, waiting, leaving, returned, Copy, idle,
  copying, cancelling, finishing, Direction, outbound, inbound, Handler, Event, go_on, dial_returns,
  copy_returns, copy_goes_on, close_conn, close_remote, step_go_on, step_dial, step_copy_returns,
  step_copy, step_close_conn, step_close_remote, handler_step, accepted,
}

-- The copy has been added to `wg`, and has not been taken off it.
abbrev pub live : Copy → ℕ
live copying = 1
live cancelling = 1
live finishing = 1
live _ = 0

abbrev pub Begun : Copy → Type 0
Begun idle = ⊥
Begun _ = Unit {0}

-- How far the copies and the remote connection are at each stage.
abbrev pub Fits : Stage → Copy → Copy → Bool → Bool → Bool → Type 0
Fits dialing o i cancelled dialed armed =
    (o ≡ idle) × (i ≡ idle) × (dialed ≡ false) × (armed ≡ false)
Fits registering o i cancelled dialed armed =
    (o ≡ idle) × (i ≡ idle) × (dialed ≡ true) × (armed ≡ false)
Fits starting o i cancelled dialed armed =
    (o ≡ idle) × (i ≡ idle) × (dialed ≡ true) × (armed ≡ true)
Fits starting_second o i cancelled dialed armed =
    Begun o × (i ≡ idle) × (dialed ≡ true) × (armed ≡ true)
Fits waiting o i cancelled dialed armed = Begun o × Begun i × (dialed ≡ true) × (armed ≡ true)
Fits leaving o i cancelled dialed armed = (live o ≡ 0) × (live i ≡ 0) × (dialed ≡ armed)
Fits returned o i cancelled dialed armed =
    (live o ≡ 0) × (live i ≡ 0) × (dialed ≡ armed) × (cancelled ≡ true)

pub record IsOrderly (h : Handler) : Type 0 where
  pub safe : h.crashed ≡ false
  pub counted : h.wg ≡ live h.to_remote + live h.from_remote
  pub fits : Fits h.stage h.to_remote h.from_remote h.cancelled h.remote_open h.remote_armed
  pub conn_last : h.conn_closed ≡ true → h.cancelled ≡ true
  pub remote_last : h.remote_closed ≡ true → (h.cancelled ≡ true) × (h.remote_open ≡ true)

pub accepted-IsOrderly : (b : Bool) → IsOrderly (accepted b)
accepted-IsOrderly b = ground arith

step_go_on-IsOrderly : (h : Handler) → IsOrderly h → IsOrderly (step_go_on h)
unfolding step_go_on
step_go_on-IsOrderly h v = ground arith

step_dial-IsOrderly : (b : Bool) (h : Handler) → IsOrderly h → IsOrderly (step_dial b h)
unfolding step_dial
step_dial-IsOrderly true h v = ground arith
step_dial-IsOrderly false h v = ground arith

step_copy_returns-IsOrderly :
    (d : Direction) (b : Bool) (h : Handler) → IsOrderly h → IsOrderly (step_copy_returns d b h)
unfolding step_copy_returns
step_copy_returns-IsOrderly outbound b h v = ground arith
step_copy_returns-IsOrderly inbound b h v = ground arith

step_copy-IsOrderly : (d : Direction) (h : Handler) → IsOrderly h → IsOrderly (step_copy d h)
unfolding step_copy
step_copy-IsOrderly outbound h v = ground arith
step_copy-IsOrderly inbound h v = ground arith

step_close_conn-IsOrderly : (h : Handler) → IsOrderly h → IsOrderly (step_close_conn h)
unfolding step_close_conn
step_close_conn-IsOrderly h v = ground arith

step_close_remote-IsOrderly : (h : Handler) → IsOrderly h → IsOrderly (step_close_remote h)
unfolding step_close_remote
step_close_remote-IsOrderly h v = ground arith

pub handler_step-IsOrderly :
    (ev : Event) (h : Handler) → IsOrderly h → IsOrderly (handler_step ev h)
unfolding handler_step
handler_step-IsOrderly go_on h v = step_go_on-IsOrderly h v
handler_step-IsOrderly (dial_returns b) h v = step_dial-IsOrderly b h v
handler_step-IsOrderly (copy_returns d b) h v = step_copy_returns-IsOrderly d b h v
handler_step-IsOrderly (copy_goes_on d) h v = step_copy-IsOrderly d h v
handler_step-IsOrderly close_conn h v = step_close_conn-IsOrderly h v
handler_step-IsOrderly close_remote h v = step_close_remote-IsOrderly h v

pub cancelled-IsOrderly : (h : Handler) → IsOrderly h → IsOrderly (record h { cancelled = true })
cancelled-IsOrderly h v = ground arith

-- A cancelled connection stays cancelled.
pub handler_step-cancelled :
    (ev : Event) (h : Handler) → h.cancelled ≡ true → (handler_step ev h).cancelled ≡ true
unfolding handler_step step_go_on step_dial step_copy_returns step_copy step_close_conn
    step_close_remote
handler_step-cancelled go_on h v = ground arith
handler_step-cancelled (dial_returns true) h v = ground arith
handler_step-cancelled (dial_returns false) h v = ground arith
handler_step-cancelled (copy_returns outbound b) h v = ground arith
handler_step-cancelled (copy_returns inbound b) h v = ground arith
handler_step-cancelled (copy_goes_on outbound) h v = ground arith
handler_step-cancelled (copy_goes_on inbound) h v = ground arith
handler_step-cancelled close_conn h v = ground arith
handler_step-cancelled close_remote h v = ground arith
