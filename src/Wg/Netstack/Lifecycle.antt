-- ===== src/Wg/Netstack/Lifecycle.antt =====
-- pkg/wg/netstack.go, `Netstack`: packets leave the stack, WireGuard reads them, and the device is
-- closed, by goroutines that share it. A step below is one atomic operation of one of them.
pub mod Counts
pub mod Announcing
pub mod Running
pub mod Intact
pub mod Draining
pub mod Ending
pub mod Leaving
use point_c.Base.{Bool, true, false, List, [], ◌∷◌, ◌++◌, Bytes, ◌≡◌, Option, none, GoError}
use point_c.Wg.Netstack.{Received, done, packet}

-- tun.EventUp and tun.EventDown.
pub data TunEvent : Type 0 where
  event_up event_down : TunEvent

-- The `sync.Once`: not called, in its function, or behind it.
pub data Once : Type 0 where
  unused running finished : Once

-- `Netstack`: the packets in its endpoint and whether that is closed; the channel `events`, which
-- has room for one; `close`; whether `done` is closed. `crashed` is set when a closed channel is
-- closed. For the statements only: the packets that the stack has written to the endpoint, those
-- that `WriteNotify` has dropped or the closing of the endpoint has discarded, and the events that
-- WireGuard has received.
pub record Netstack : Type 0 where
  pub queue : List Bytes
  pub ep_closed : Bool
  pub events : List TunEvent
  pub close : Once
  pub is_done : Bool
  pub crashed : Bool
  pub written : List Bytes
  pub dropped : List Bytes
  pub seen : List TunEvent

-- Where a goroutine stands: in `Close`, in front of `close.Do`; in its function, in front of each
-- of its four statements; behind it, with the returned error; in the goroutine that announces the
-- end; in `WriteNotify`, in front of `ep.Read` or in the select; or returned.
pub data Task : Type 0 where
  closing : Task
  closing_done : Task
  starting_down : Task
  closing_ep : Task
  waiting_ep : Task
  closed : Option GoError → Task
  sending_down : Task
  notified : Task
  sending : Bytes → Task
  returned : Task

-- A call of `Read`: in its select, or past it.
pub data Reader : Type 0 where
  reading : Reader
  received : Received → Reader

-- `d.close.Do(f)`: the first caller runs `f`, and the others wait until it has returned.
unfoldable pub do_once : Netstack → Netstack × Task
do_once d = elim d.close [
  | unused ↦ (record d { close = running }, closing_done)
  | running ↦ (d, closing)
  | finished ↦ (d, closed none)
]

-- `close(d.done)`, which panics on a closed channel.
unfoldable pub close_done : Netstack → Netstack × Task
close_done d = elim d.is_done [
  | true ↦ (record d { crashed = true }, returned)
  | false ↦ (record d { is_done = true }, starting_down)
]

-- `d.ep.Close()`, which takes no more packets and discards those in the endpoint.
unfoldable pub close_endpoint : Netstack → Netstack × Task
close_endpoint d =
    (record d { ep_closed = true; queue = []; dropped = d.queue ++ d.dropped }, waiting_ep)

-- `d.events <- tun.EventDown`, which waits for room.
unfoldable pub send_down : Netstack → Netstack × Task
send_down d = elim d.events [
  | [] ↦ (record d { events = event_down ∷ [] }, returned)
  | _ ∷ _ ↦ (d, sending_down)
]

-- `w.ep.Read()`: the first packet of the queue, or a nil packet.
unfoldable pub read_endpoint : Netstack → Netstack × Task
read_endpoint d = elim d.queue [
  | [] ↦ (d, returned)
  | p ∷ ps ↦ (record d { queue = ps }, sending p)
]

-- `case <-w.done` of `WriteNotify`.
unfoldable pub drop_packet : Netstack → Bytes → Netstack × Task
drop_packet d p = elim d.is_done [
  | true ↦ (record d { dropped = p ∷ d.dropped }, returned)
  | false ↦ (d, sending p)
]

-- One step of `Close` or of `WriteNotify`. `closeErr` is never assigned, so that `Close` returns
-- nil.
unfoldable pub task_step : Netstack → Task → Netstack × Task
unfolding do_once close_done close_endpoint send_down read_endpoint drop_packet
task_step d closing = do_once d
task_step d closing_done = close_done d
task_step d starting_down = (d, closing_ep)
task_step d closing_ep = close_endpoint d
task_step d waiting_ep = (record d { close = finished }, closed none)
task_step d sending_down = send_down d
task_step d notified = read_endpoint d
task_step d (sending p) = drop_packet d p
task_step d (closed e) = (d, closed e)
task_step d returned = (d, returned)

-- `go func() { d.events <- tun.EventDown }()`.
abbrev pub spawned : Task → List Task
spawned starting_down = sending_down ∷ []
spawned _ = []

pub record System : Type 0 where
  pub device : Netstack
  pub tasks : List Task
  pub readers : List Reader

-- A goroutine makes a step; `WriteNotify` hands a packet to a `Read`; a `Read` takes the closed
-- `done`; WireGuard receives an event, or calls `Read` or `Close`; the stack writes a packet to the
-- open endpoint, which calls `WriteNotify`.
pub data Step (s : System) (s' : System) : Type 0 where
  run :
      (before after : List Task) (t : Task)
      → s.tasks ≡ before ++ t ∷ after
      → s' ≡ record s {
        device = (task_step s.device t).0;
        tasks = spawned t ++ (before ++ (task_step s.device t).1 ∷ after);
      }
      → Step s s'
  hand_over :
      (p : Bytes) (before after : List Task) (rb ra : List Reader)
      → s.tasks ≡ before ++ sending p ∷ after
      → s.readers ≡ rb ++ reading ∷ ra
      → s'
        ≡ record s { tasks = before ++ returned ∷ after; readers = rb ++ received (packet p) ∷ ra }
      → Step s s'
  read_done :
      (rb ra : List Reader)
      → s.device.is_done ≡ true
      → s.readers ≡ rb ++ reading ∷ ra
      → s' ≡ record s { readers = rb ++ received done ∷ ra }
      → Step s s'
  take_event :
      (e : TunEvent) (es : List TunEvent)
      → s.device.events ≡ e ∷ es
      → s' ≡ record s { device = record s.device { events = es; seen = s.device.seen ++ e ∷ [] } }
      → Step s s'
  call_read : s' ≡ record s { readers = reading ∷ s.readers } → Step s s'
  call_close : s' ≡ record s { tasks = closing ∷ s.tasks } → Step s s'
  write_packet :
      (p : Bytes)
      → s.device.ep_closed ≡ false
      → s' ≡ record s {
        device = record s.device {
          queue = s.device.queue ++ p ∷ [];
          written = p ∷ s.device.written;
        };
        tasks = notified ∷ s.tasks;
      }
      → Step s s'

pub data Reach (s : System) : System → Type 0 where
  here : Reach s s
  next : {t u : System} → Reach s t → Step t u → Reach s u

-- What `NewNetstack` returns.
abbrev pub started : Netstack
started = record {
  queue = [];
  ep_closed = false;
  events = event_up ∷ [];
  close = unused;
  is_done = false;
  crashed = false;
  written = [];
  dropped = [];
  seen = [];
}

abbrev pub initial : System
initial = record { device = started; tasks = []; readers = [] }
