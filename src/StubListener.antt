-- ===== src/StubListener.antt =====
-- stub-listener.go: the listener whose `Accept` blocks until it is closed, a channel listener on a
-- channel that nothing sends to.
use mathlib.Core.Path.{subst}
use point_c.Base.{
  ◌≡◌, refl, sym, ap, ◌∙◌, Bool, true, false, Option, some, List, [], ◌∷◌, ◌++◌, Bytes, codes,
  GoError, All, All-append, All-split, arith,
}
use point_c.ChannelListener.{
  Channel, Listener, Thread, swapping, swapped, selecting, accept_swapping, accept_swapped, loading,
  returned_conn, returned_err, returned, step, close_with_err, System, Step, run, send,
  close_channel, call_accept, call_close, Reach, here, next, new_listener,
}
use point_c.ChannelListener.Closing.{Reach-IsSound, Returns, step-selecting}

-- `stubAddr`: `Network` and `String`.
abbrev pub StubAddr : Type 0
StubAddr = Bytes

unfoldable pub stub_network : StubAddr → Bytes
stub_network d = codes "stub"

unfoldable pub stub_string : StubAddr → Bytes
stub_string d = d

-- `make(<-chan net.Conn)`: open and empty.
abbrev pub no_conns : Channel
no_conns = record { waiting = []; closed = false }

-- `StubListener`, for the address that it is given.
unfoldable pub stub_listener : Bytes → Listener × StubAddr
stub_listener addr = (new_listener no_conns, addr)

-- The steps of the listener's own goroutines and callers. Nobody else holds the channel, so that
-- nothing is sent to it, and it is not closed.
abbrev pub IsOwn : {s s' : System} → Step s s' → Type 0
IsOwn (run choice before after t s'' e e') = Unit {0}
IsOwn (send c s'' h e) = ⊥
IsOwn (close_channel s'' h e) = ⊥
IsOwn (call_accept s'' e) = Unit {0}
IsOwn (call_close x s'' e) = Unit {0}

pub data StubReach (s : System) : System → Type 0 where
  start : StubReach s s
  later : {t u : System} → StubReach s t → (st : Step t u) → IsOwn st → StubReach s u

-- The stub as it is returned.
abbrev pub stub_system : Bytes → System
stub_system addr = record { listener = (stub_listener addr).0; threads = [] }

StubReach-Reach : {s t : System} → StubReach s t → Reach s t
StubReach-Reach start = here
StubReach-Reach (later r st o) = next (StubReach-Reach r) st

-- A goroutine that the channel has not let go on.
abbrev Waits : Thread → Type 0
Waits (returned_conn c) = ⊥
Waits accept_swapping = ⊥
Waits accept_swapped = ⊥
Waits loading = ⊥
Waits _ = Unit {0}

step-Waits :
    (choice : Bool) (d : Listener) (t : Thread)
    → d.input ≡ no_conns
    → Waits t
    → ((step choice d t).0.input ≡ no_conns) × Waits (step choice d t).1
unfolding step
step-Waits choice d (swapping e) h w = ground arith
step-Waits choice d swapped h w = ground arith
step-Waits true d selecting h w = ground arith
step-Waits false d selecting h w =
    let e = step-selecting d h in
    (ap (λ r. r.0.input) e ∙ h, subst Waits (sym (ap (λ r. r.1) e)) tt)
step-Waits choice d accept_swapping h w = absurd w
step-Waits choice d accept_swapped h w = absurd w
step-Waits choice d loading h w = absurd w
step-Waits choice d (returned_conn x) h w = absurd w
step-Waits choice d (returned_err e) h w = (h, tt)
step-Waits choice d returned h w = (h, tt)

-- No goroutine has a connection, and what a call of `Accept` returned is the error of a `Close`.
abbrev pub IsBlocked : Option GoError → Thread → Type 0
IsBlocked stored (returned_conn c) = ⊥
IsBlocked stored (returned_err e) = stored ≡ some e
IsBlocked stored _ = Unit {0}

Waits-IsBlocked : (o : Option GoError) (t : Thread) → Waits t → Returns o t → IsBlocked o t
Waits-IsBlocked o (swapping e) w r = tt
Waits-IsBlocked o swapped w r = tt
Waits-IsBlocked o selecting w r = tt
Waits-IsBlocked o accept_swapping w r = tt
Waits-IsBlocked o accept_swapped w r = tt
Waits-IsBlocked o loading w r = tt
Waits-IsBlocked o (returned_conn c) w r = w
Waits-IsBlocked o (returned_err e) w r = r
Waits-IsBlocked o returned w r = tt

close-Waits : (x : Option GoError) → Waits (close_with_err x)
unfolding close_with_err
close-Waits x = tt

run-Waits :
    (choice : Bool) (d : Listener) (before after : List Thread) (t : Thread)
    → d.input ≡ no_conns
    → All Waits (before ++ t ∷ after)
    → ((step choice d t).0.input ≡ no_conns) × All Waits (before ++ (step choice d t).1 ∷ after)
run-Waits choice d before after t h w =
    let (l, m, r) = All-split Waits before after t w in
    let (same, still) = step-Waits choice d t h m in
    (same, All-append Waits before ((step choice d t).1 ∷ after) l (still, r))

-- The channel stays empty and open, and all goroutines wait.
abbrev IsQuiet : System → Type 0
IsQuiet s = (s.listener.input ≡ no_conns) × All Waits s.threads

Step-IsQuiet : (s s' : System) (st : Step s s') → IsOwn st → IsQuiet s → IsQuiet s'
Step-IsQuiet s s' (run choice before after t s'' e e') o (h, w) =
    subst IsQuiet (sym e') (run-Waits choice s.listener before after t h (subst (All Waits) e w))
Step-IsQuiet s s' (send c s'' h e) o v = absurd o
Step-IsQuiet s s' (close_channel s'' h e) o v = absurd o
Step-IsQuiet s s' (call_accept s'' e) o (h, w) = subst IsQuiet (sym e) (h, (tt, w))
Step-IsQuiet s s' (call_close x s'' e) o (h, w) = subst IsQuiet (sym e) (h, (close-Waits x, w))

StubReach-IsQuiet : (addr : Bytes) (s : System) → StubReach (stub_system addr) s → IsQuiet s
unfolding stub_listener new_listener
StubReach-IsQuiet addr s start = (refl, tt)
StubReach-IsQuiet addr s (later {t} r st o) = Step-IsQuiet t s st o (StubReach-IsQuiet addr t r)

All-both :
    (o : Option GoError) (ts : List Thread)
    → All Waits ts
    → All (Returns o) ts
    → All (IsBlocked o) ts
All-both o [] w r = tt
All-both o (t ∷ ts) (w, ws) (r, rs) = (Waits-IsBlocked o t w r, All-both o ts ws rs)

-- However often the stub is accepted on and closed, and however the goroutines interleave: no
-- `Accept` returns a connection, and one that returns an error returns the error that a `Close` has
-- stored, so that none returns before the first `Close`; nothing closes `done` twice.
pub StubReach-IsBlocked :
    (addr : Bytes) (s : System)
    → StubReach (stub_system addr) s
    → All (IsBlocked s.listener.close_err) s.threads × (s.listener.crashed ≡ false)
unfolding stub_listener
StubReach-IsBlocked addr s r =
    let (h, w) = StubReach-IsQuiet addr s r in
    let v = Reach-IsSound no_conns s (StubReach-Reach r) in
    (All-both s.listener.close_err s.threads w v.returns, v.safe)
