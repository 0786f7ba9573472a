-- ===== src/Examples/Goroutines.antt =====
-- Goroutines that share a network device, a forwarded listener, an interface or a stub, at short
-- runs.
use mathlib.Core.List.{reverse}
use point_c.Base.{
  ◌≡◌, refl, true, false, some, List, [], ◌∷◌, ◌++◌, Bytes, codes, GoError, Option, none, join,
  Bool, new, All, length,
}
use point_c.Wg.Netstack.Lifecycle
use point_c.Wg.Netstack.Lifecycle.{
  Netstack, Task, closing, closing_done, starting_down, notified, sending, returned, reading,
  received, task_step, write_packet, call_read, call_close, run, started, finished,
}
use point_c.Wg.Netstack.Lifecycle.Intact
use point_c.Wg.Netstack.Lifecycle.Running.{IsIntact}
use point_c.Wg.Netstack.Lifecycle.Draining.{HasReturned}
use point_c.Wg.Netstack.Lifecycle.Ending
use point_c.Wg.Netstack.Lifecycle.Leaving.{HasEnded}
use point_c.Forward.Handler
use point_c.Forward.Handler.{Server, accepted, accept, cancel_context}
use point_c.Forward.Handler.Reached
use point_c.Forward.Handler.Closing
use point_c.Wg.Options.{Closer, close_device, device_down}
use point_c.Wg.Connection.Concurrent
use point_c.Wg.Connection.Concurrent.Sharing
use point_c.Wg.Connection.Concurrent.{
  entering, looping, loading, returned as returned_with, step, caller_step, enter, call_next,
}
use point_c.StubListener
use point_c.StubListener.{stub_system, StubReach, start, later, IsBlocked}
use point_c.ChannelListener
use point_c.ChannelListener.{call_accept, selecting}

-- The stack writes a packet and `WriteNotify` takes it.
abbrev p : Bytes
p = 69 ∷ 0 ∷ []

abbrev written : Lifecycle.System
written = record {
  device = record started { queue = p ∷ []; written = p ∷ [] };
  tasks = notified ∷ [];
  readers = [];
}

abbrev called : Lifecycle.System
called = record written { tasks = closing ∷ notified ∷ [] }

abbrev taken : Lifecycle.System
taken = record {
  device = (task_step called.device notified).0;
  tasks = closing ∷ (task_step called.device notified).1 ∷ [];
  readers = [];
}

abbrev waiting : Lifecycle.System
waiting = record taken { readers = reading ∷ [] }

taken_lem : (task_step called.device notified).1 ≡ sending p
unfolding task_step
taken_lem = refl

waiting_reached : Lifecycle.Reach Lifecycle.initial waiting
unfolding task_step
waiting_reached =
    Lifecycle.next
      (Lifecycle.next
        (Lifecycle.next (Lifecycle.next Lifecycle.here (write_packet p refl refl))
          (call_close refl))
        (run (closing ∷ []) [] notified refl refl))
      (call_read refl)

Reach-IsIntact_example : IsIntact waiting
Reach-IsIntact_example = Intact.Reach-IsIntact waiting waiting_reached

-- `Close` is called beside another call of it, a `WriteNotify` and a `Read`.
Reach-HasEnded_example :
    (s' : Lifecycle.System) × Lifecycle.Reach
      (record waiting { tasks = closing ∷ waiting.tasks })
      s'
    × All HasEnded s'.tasks
    × (length s'.readers ≡ 1)
    × All HasReturned s'.readers
    × (s'.device.is_done ≡ true)
    × (s'.device.close ≡ finished)
Reach-HasEnded_example = Ending.Reach-HasEnded waiting waiting_reached

-- A listener that has accepted a connection and is then stopped.
abbrev stopped : Server
stopped = record {
  finished = false;
  cancelled = true;
  handlers = record (accepted false) { cancelled = true } ∷ [];
}

stopped_reached : Handler.Reach Handler.initial stopped
stopped_reached = Handler.next (Handler.next Handler.here (accept refl refl)) (cancel_context refl)

Reach-IsSafe_example : Reached.IsSafe stopped
Reach-IsSafe_example = Reached.Reach-IsSafe stopped stopped_reached

Reach-IsOver_example :
    (s' : Server) × Handler.Reach stopped s'
    × (length s'.handlers ≡ 1)
    × All Closing.IsOver s'.handlers
Reach-IsOver_example = Closing.Reach-IsOver stopped stopped_reached refl

-- An interface with two closers, closed once.
abbrev run_closer : Closer → Option GoError
run_closer c = some (new "busy")

abbrev closers : List Closer
closers = close_device ∷ device_down ∷ []

-- One call has run the first closer, and another has lost the compare-and-swap and returned.
abbrev lost : Concurrent.System run_closer
lost = record {
  shared = record {
    is_set = true;
    err = join none (some (new "busy"));
    pending = close_device ∷ [];
    called = device_down ∷ [];
  };
  callers = returned_with false (join none (some (new "busy"))) ∷ looping ∷ [];
}

lost_reached : Concurrent.Reach run_closer (Concurrent.opened run_closer closers) lost
unfolding caller_step enter call_next
lost_reached =
    Concurrent.next
      (Concurrent.next
        (Concurrent.next
          (Concurrent.next
            (Concurrent.next (Concurrent.next Concurrent.here (Concurrent.call refl))
              (step [] [] entering refl refl))
            (Concurrent.call refl))
          (step (entering ∷ []) [] looping refl refl))
        (step [] (looping ∷ []) entering refl refl))
      (step [] (looping ∷ []) (loading false) refl refl)

Reach-Told_example :
    (lost.shared.called ++ lost.shared.pending ≡ reverse closers)
    × All (Sharing.Told run_closer closers) lost.callers
    × ((first : Bool)
        → caller_step run_closer lost.shared (loading first)
          ≡ (lost.shared, returned_with first (Sharing.joined run_closer lost.shared.called none)))
Reach-Told_example = Sharing.Reach-Told run_closer closers lost lost_reached

-- A stub with a goroutine in `Accept`.
abbrev accepting : ChannelListener.System
accepting = record (stub_system (codes "a")) { threads = selecting ∷ [] }

StubReach-IsBlocked_example :
    All (IsBlocked accepting.listener.close_err) accepting.threads
    × (accepting.listener.crashed ≡ false)
StubReach-IsBlocked_example =
    StubListener.StubReach-IsBlocked (codes "a") accepting
      (later start (call_accept accepting refl) tt)
