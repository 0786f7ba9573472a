-- ===== src/Examples/Listeners.antt =====
-- The listeners, at concrete inputs.
use point_c.Base.{
  ◌≡◌, ◌↔◌, refl, [], ◌∷◌, codes, some, none, true, false, GoError, Option, new, net_closed, All,
}
use point_c.ChannelListener
use point_c.ChannelListener.{
  Channel, Listener, call_close, run, here, next, swapping, close_with_err,
}
use point_c.ChannelListener.Closing
use point_c.MultiWrapper.{MultiWrapper, ListenerId, cleanup, zero_wrapper}
use point_c.MultiWrapper.Listen
use point_c.MultiWrapper.Listen.{accepts, accepting}
use point_c.MultiWrapper.Cleanup
use point_c.MultiWrapper.Cleanup.{goroutines}

abbrev channel : Channel
channel = record { waiting = 4 ∷ []; closed = false }

abbrev called : ChannelListener.System
called = record {
  listener = ChannelListener.new_listener channel;
  threads = close_with_err none ∷ [];
}

abbrev ran : ChannelListener.System
ran = record {
  listener = (ChannelListener.step true called.listener (close_with_err none)).0;
  threads = (ChannelListener.step true called.listener (close_with_err none)).1 ∷ [];
}

reached : ChannelListener.Reach (ChannelListener.initial channel) ran
reached = next (next here (call_close none called refl)) (run true [] [] _ ran refl refl)

closed_run : ran.listener.close_err ≡ some net_closed
unfolding close_with_err ChannelListener.step ChannelListener.new_listener
closed_run = refl

Reach-IsSound_example : Closing.IsSound ran
Reach-IsSound_example = Closing.Reach-IsSound channel ran reached

abbrev accepted : Listen.System
accepted = record {
  shared = (Listen.listen_step (accepts 9) (Listen.initial (1 ∷ 2 ∷ [])).shared (accepting 1)).0;
  workers =
      (Listen.listen_step (accepts 9) (Listen.initial (1 ∷ 2 ∷ [])).shared (accepting 1)).1
      ∷ accepting 2
      ∷ [];
}

Reach-IsConserving_example : Listen.IsConserving accepted
Reach-IsConserving_example =
    Listen.Reach-IsConserving (1 ∷ 2 ∷ []) accepted (
      Listen.next Listen.here
        (Listen.run (accepts 9) [] (accepting 2 ∷ []) (accepting 1) refl refl))

abbrev wrapper : MultiWrapper
wrapper = record { listener_raw = some (codes "{}" ∷ []); listeners = 1 ∷ 2 ∷ []; conns = true }

abbrev close_listener : ListenerId → Option GoError
close_listener l = some (new "busy")

cleanup-wrapper :
    ((cleanup close_listener wrapper).0 ≡ zero_wrapper)
    × ((cleanup close_listener wrapper).1 ≡ 1 ∷ 2 ∷ [])
    × (((cleanup close_listener wrapper).2 ≡ none)
        ↔ All (λ l. close_listener l ≡ none) (1 ∷ 2 ∷ []))
cleanup-wrapper = Cleanup.cleanup_lem close_listener wrapper
