-- ===== src/Forward/Handler.antt =====
-- forward.go, `forwardListener` and `tcpCopy`: the goroutines of one listener. Each accepted
-- connection has a context of its own, below that of the listener; a step below is one atomic
-- operation.
pub mod Orderly
pub mod Reached
pub mod Closing
pub mod Tunnel
use point_c.Base.{
  ℕ, suc, ◌+◌, ◌-◌, ◌==◌, ◌≡◌, Bool, true, false, if◌then◌else◌, List, [], ◌∷◌, ◌++◌, Bytes,
}
use point_c.Strconv.Int.{pos}
use point_c.Pointc.Net.{Net}

-- The goroutine of a connection: in `Dial`; in front of `AfterFunc` for the remote connection; in
-- front of the start of each copy; in `wg.Wait`; in front of its deferred `cancel`; or returned.
pub data Stage : Type 0 where
  dialing registering starting starting_second waiting leaving returned : Stage

-- A goroutine in `tcpCopy`: not started; in `io.Copy`; in front of its deferred `cancel`, and of
-- its deferred `wg.Done`; or returned.
pub data Copy : Type 0 where
  idle copying cancelling finishing ended : Copy

-- The copy of the accepted connection to the remote one, and the copy back.
pub data Direction : Type 0 where
  outbound inbound : Direction

pub data Logged : Type 0 where
  dial_failed copy_failed : Logged

-- An accepted connection: where its goroutines stand, the counter of `wg`, whether its context is
-- cancelled, whether it has been closed; the remote connection: whether there is one, whether its
-- closing is registered, and whether it has been closed. `crashed` is set when the counter drops
-- below zero.
pub record Handler : Type 0 where
  pub stage : Stage
  pub to_remote : Copy
  pub from_remote : Copy
  pub wg : ℕ
  pub cancelled : Bool
  pub conn_closed : Bool
  pub remote_open : Bool
  pub remote_armed : Bool
  pub remote_closed : Bool
  pub logged : List Logged
  pub crashed : Bool

-- Behind `ln.Accept`, in a context that is cancelled if the listener's is.
abbrev pub accepted : Bool → Handler
accepted cancelled = record {
  stage = dialing;
  to_remote = idle;
  from_remote = idle;
  wg = 0;
  cancelled = cancelled;
  conn_closed = false;
  remote_open = false;
  remote_armed = false;
  remote_closed = false;
  logged = [];
  crashed = false;
}

-- What happens next: the goroutine of the connection goes on, or `Dial` returns, with a connection
-- (true) or an error; `io.Copy` returns, with an error (true) or without, or the goroutine of a
-- copy goes on; one of the two functions of `AfterFunc` runs.
pub data Event : Type 0 where
  go_on : Event
  dial_returns : Bool → Event
  copy_returns : Direction → Bool → Event
  copy_goes_on : Direction → Event
  close_conn : Event
  close_remote : Event

unfoldable pub step_go_on : Handler → Handler
step_go_on h = elim h.stage [
  | dialing ↦ h
  | registering ↦ record h { stage = starting; remote_armed = true }
  | starting ↦ record h { stage = starting_second; wg = h.wg + 1; to_remote = copying }
  | starting_second ↦ record h { stage = waiting; wg = h.wg + 1; from_remote = copying }
  | waiting ↦ if h.wg == 0 then record h { stage = leaving } else h
  | leaving ↦ record h { stage = returned; cancelled = true }
  | returned ↦ h
]

unfoldable pub step_dial : Bool → Handler → Handler
step_dial true h = elim h.stage [
  | dialing ↦ record h { stage = registering; remote_open = true }
  | _ ↦ h
]
step_dial false h = elim h.stage [
  | dialing ↦ record h { stage = leaving; logged = h.logged ++ dial_failed ∷ [] }
  | _ ↦ h
]

abbrev pub copy_log : Bool → List Logged
copy_log true = copy_failed ∷ []
copy_log false = []

-- `wg.Done`.
abbrev pub wg_done : Handler → Handler
wg_done h = if h.wg == 0 then record h { crashed = true } else record h { wg = h.wg - 1 }

unfoldable pub step_copy_returns : Direction → Bool → Handler → Handler
step_copy_returns outbound failed h = elim h.to_remote [
  | copying ↦ record h { to_remote = cancelling; logged = h.logged ++ copy_log failed }
  | _ ↦ h
]
step_copy_returns inbound failed h = elim h.from_remote [
  | copying ↦ record h { from_remote = cancelling; logged = h.logged ++ copy_log failed }
  | _ ↦ h
]

-- The deferred functions of a copy: `cancel`, then `wg.Done`.
unfoldable pub step_copy : Direction → Handler → Handler
step_copy outbound h = elim h.to_remote [
  | cancelling ↦ record h { to_remote = finishing; cancelled = true }
  | finishing ↦ record (wg_done h) { to_remote = ended }
  | _ ↦ h
]
step_copy inbound h = elim h.from_remote [
  | cancelling ↦ record h { from_remote = finishing; cancelled = true }
  | finishing ↦ record (wg_done h) { from_remote = ended }
  | _ ↦ h
]

-- The functions given to `AfterFunc`, which run once the context is cancelled.
unfoldable pub step_close_conn : Handler → Handler
step_close_conn h = if h.cancelled then record h { conn_closed = true } else h

unfoldable pub step_close_remote : Handler → Handler
step_close_remote h =
    if h.cancelled then (if h.remote_armed then record h { remote_closed = true } else h) else h

-- One step; an event that is not awaited changes nothing.
unfoldable pub handler_step : Event → Handler → Handler
handler_step go_on h = step_go_on h
handler_step (dial_returns success) h = step_dial success h
handler_step (copy_returns d failed) h = step_copy_returns d failed h
handler_step (copy_goes_on d) h = step_copy d h
handler_step close_conn h = step_close_conn h
handler_step close_remote h = step_close_remote h

-- The connections of a listener whose context is cancelled.
abbrev pub cancel_all : List Handler → List Handler
cancel_all [] = []
cancel_all (h ∷ hs) = record h { cancelled = true } ∷ cancel_all hs

-- `forwardListener`: whether its loop has returned, whether its context is cancelled, and its
-- connections.
pub record Server : Type 0 where
  pub finished : Bool
  pub cancelled : Bool
  pub handlers : List Handler

abbrev pub initial : Server
initial = record { finished = false; cancelled = false; handlers = [] }

-- `ln.Accept` returns a connection, or an error, behind which the deferred `cancel` runs; the
-- context is cancelled by the app or by the function in `Forwards.stop`; a goroutine of a
-- connection makes a step.
pub data Step (s : Server) (s' : Server) : Type 0 where
  accept :
      s.finished ≡ false
      → s' ≡ record s { handlers = accepted s.cancelled ∷ s.handlers }
      → Step s s'
  accept_fails :
      s.finished ≡ false
      → s' ≡ record { finished = true; cancelled = true; handlers = cancel_all s.handlers }
      → Step s s'
  cancel_context : s' ≡ record s { cancelled = true; handlers = cancel_all s.handlers } → Step s s'
  handle :
      (ev : Event) (before after : List Handler) (h : Handler)
      → s.handlers ≡ before ++ h ∷ after
      → s' ≡ record s { handlers = before ++ handler_step ev h ∷ after }
      → Step s s'

pub data Reach (s : Server) : Server → Type 0 where
  here : Reach s s
  next : {t u : Server} → Reach s t → Step t u → Reach s u

-- The request of `Dial`: from the address of the accepted connection's peer, at any port, to the
-- network's own address at the destination port.
unfoldable pub dial_request : {Request : Type 0} → Net Request → ℕ → Bytes → Request
dial_request n dst remote = (n.dialer remote 0).dial (record { ip = n.local_addr; port = pos dst })
