-- ===== src/ChannelListener/Closing.antt =====
-- The listener is closed once, with the first error, and never crashes.
use mathlib.Core.Path.{subst}
use point_c.Base.{
  ℕ, ◌+◌, ◌≡◌, refl, Bool, true, false, Option, none, some, List, [], ◌∷◌, ◌++◌, GoError, arith,
  All, All-append, sym, ◌∙◌, ap,
}
use point_c.ChannelListener.{
  Channel, Listener, Thread, swapping, swapped, selecting, accept_swapping, accept_swapped, loading,
  returned_conn, returned_err, returned, receive, step, close_with_err, System, Step, run, send,
  close_channel, call_accept, call_close, Reach, here, next, initial, new_listener,
}

-- Won the compare-and-swap, and has not closed `done` yet.
abbrev winner : Thread → ℕ
winner swapped = 1
winner accept_swapped = 1
winner _ = 0

abbrev loader : Thread → ℕ
loader loading = 1
loader _ = 0

abbrev winners : List Thread → ℕ
winners [] = 0
winners (t ∷ ts) = winner t + winners ts

abbrev loaders : List Thread → ℕ
loaders [] = 0
loaders (t ∷ ts) = loader t + loaders ts

-- `closeErr`, `done`, the number of winners and of goroutines about to load the error fit together.
abbrev Balance : Option GoError → Bool → ℕ → ℕ → Type 0
Balance none done w l = (done ≡ false) × (w ≡ 0) × (l ≡ 0)
Balance (some e) true w l = w ≡ 0
Balance (some e) false w l = w ≡ 1

-- The error that a goroutine returned is the stored one.
abbrev pub Returns : Option GoError → Thread → Type 0
Returns stored (returned_err e) = stored ≡ some e
Returns stored _ = Unit {0}

step-Balance :
    (choice : Bool) (d : Listener) (t : Thread) (w l : ℕ)
    → d.crashed ≡ false
    → Balance d.close_err d.done (w + winner t) (l + loader t)
    → let d' = (step choice d t).0 in
      let t' = (step choice d t).1 in
      (d'.crashed ≡ false) × Balance d'.close_err d'.done (w + winner t') (l + loader t')
unfolding step
step-Balance choice d (swapping e) w l c b = ground arith
step-Balance choice d swapped w l c b = ground arith
step-Balance true d selecting w l c b = ground arith
step-Balance false d selecting w l c b = ground arith
step-Balance choice d accept_swapping w l c b = ground arith
step-Balance choice d accept_swapped w l c b = ground arith
step-Balance choice d loading w l c b = ground arith
step-Balance choice d (returned_conn x) w l c b = (c, b)
step-Balance choice d (returned_err e) w l c b = (c, b)
step-Balance choice d returned w l c b = (c, b)

-- Once an error is stored it stays, and a step returns the stored error or no error.
step-Returns :
    (choice : Bool) (d : Listener) (t : Thread)
    → Returns d.close_err t
    → Returns (step choice d t).0.close_err (step choice d t).1
unfolding step
step-Returns choice d (swapping e) r = ground arith
step-Returns choice d swapped r = ground arith
step-Returns true d selecting r = ground arith
step-Returns false d selecting r = ground arith
step-Returns choice d accept_swapping r = ground arith
step-Returns choice d accept_swapped r = ground arith
step-Returns choice d loading r = ground arith
step-Returns choice d (returned_conn x) r = tt
step-Returns choice d (returned_err e) r = r
step-Returns choice d returned r = tt

-- The select stays where it is while the channel is open and empty.
pub step-selecting :
    (d : Listener)
    → d.input ≡ record { waiting = []; closed = false }
    → step false d selecting ≡ (d, selecting)
unfolding step receive
step-selecting d h = ap (λ c. receive d c.waiting c.closed) h

step_keeps_err :
    (choice : Bool) (d : Listener) (t : Thread) (e : GoError)
    → d.close_err ≡ some e
    → (step choice d t).0.close_err ≡ some e
unfolding step
step_keeps_err choice d (swapping x) e h = ground arith
step_keeps_err choice d swapped e h = ground arith
step_keeps_err true d selecting e h = ground arith
step_keeps_err false d selecting e h = ground arith
step_keeps_err choice d accept_swapping e h = ground arith
step_keeps_err choice d accept_swapped e h = ground arith
step_keeps_err choice d loading e h = ground arith
step_keeps_err choice d (returned_conn x) e h = h
step_keeps_err choice d (returned_err x) e h = h
step_keeps_err choice d returned e h = h

pub record IsSound (s : System) : Type 0 where
  pub safe : s.listener.crashed ≡ false
  pub balance : Balance s.listener.close_err s.listener.done (winners s.threads) (loaders s.threads)
  pub returns : All (Returns s.listener.close_err) s.threads

winners-append : (a b : List Thread) → winners (a ++ b) ≡ winners a + winners b
winners-append [] b = omega arith
winners-append (t ∷ a) b = omega (arith, winners-append a b)

loaders-append : (a b : List Thread) → loaders (a ++ b) ≡ loaders a + loaders b
loaders-append [] b = omega arith
loaders-append (t ∷ a) b = omega (arith, loaders-append a b)

Balance-eq :
    (o : Option GoError) (b : Bool) {w w' l l' : ℕ}
    → w ≡ w'
    → l ≡ l'
    → Balance o b w l
    → Balance o b w' l'
Balance-eq none b p q h = ground arith
Balance-eq (some e) true p q h = ground arith
Balance-eq (some e) false p q h = ground arith

run-Balance :
    (choice : Bool) (d : Listener) (before after : List Thread) (t : Thread)
    → d.crashed ≡ false
    → Balance d.close_err d.done (winners (before ++ t ∷ after)) (loaders (before ++ t ∷ after))
    → let d' = (step choice d t).0 in
      let ts = before ++ (step choice d t).1 ∷ after in
      (d'.crashed ≡ false) × Balance d'.close_err d'.done (winners ts) (loaders ts)
run-Balance choice d before after t c b =
    let w = winners before + winners after in
    let l = loaders before + loaders after in
    let t' = (step choice d t).1 in
    let d' = (step choice d t).0 in
    let (safe, bal) = step-Balance choice d t w l c (
      Balance-eq d.close_err d.done (omega (arith, winners-append before (t ∷ after)))
        (omega (arith, loaders-append before (t ∷ after))) b) in
    (
      safe,
      Balance-eq d'.close_err d'.done (omega (arith, winners-append before (t' ∷ after)))
          (omega (arith, loaders-append before (t' ∷ after))) bal,
    )

Returns-mono :
    (o o' : Option GoError) (t : Thread)
    → ((e : GoError) → o ≡ some e → o' ≡ some e)
    → Returns o t
    → Returns o' t
Returns-mono o o' (returned_err e) keep r = keep e r
Returns-mono o o' (swapping e) keep r = tt
Returns-mono o o' _ keep r = tt

All-mono :
    (o o' : Option GoError) (ts : List Thread)
    → ((e : GoError) → o ≡ some e → o' ≡ some e)
    → All (Returns o) ts
    → All (Returns o') ts
All-mono o o' [] keep r = tt
All-mono o o' (t ∷ ts) keep (r, rs) = (Returns-mono o o' t keep r, All-mono o o' ts keep rs)

All-middle :
    (o : Option GoError) (before after : List Thread) (t : Thread)
    → All (Returns o) (before ++ t ∷ after)
    → All (Returns o) before × Returns o t × All (Returns o) after
All-middle o [] after t (r, rs) = (tt, r, rs)
All-middle o (x ∷ before) after t (r, rs) =
    let (b, m, a) = All-middle o before after t rs in ((r, b), m, a)

run-Returns :
    (choice : Bool) (d : Listener) (before after : List Thread) (t : Thread)
    → All (Returns d.close_err) (before ++ t ∷ after)
    → All (Returns (step choice d t).0.close_err) (before ++ (step choice d t).1 ∷ after)
run-Returns choice d before after t rs =
    let o' = (step choice d t).0.close_err in
    let keep = step_keeps_err choice d t in
    let (b, m, a) = All-middle d.close_err before after t rs in
    All-append (Returns o') before ((step choice d t).1 ∷ after)
      (All-mono d.close_err o' before keep b)
      (step-Returns choice d t m, All-mono d.close_err o' after keep a)

run-IsSound :
    (choice : Bool) (d : Listener) (before after : List Thread) (t : Thread)
    → IsSound (record { listener = d; threads = before ++ t ∷ after })
    → IsSound
        (record { listener = (step choice d t).0; threads = before ++ (step choice d t).1 ∷ after })
run-IsSound choice d before after t s =
    let (safe, balance) = run-Balance choice d before after t s.safe s.balance in
    record {
      safe = safe;
      balance = balance;
      returns = run-Returns choice d before after t s.returns;
    }

close_weights :
    (x : Option GoError) → (winner (close_with_err x) ≡ 0) × (loader (close_with_err x) ≡ 0)
unfolding close_with_err
close_weights x = (refl, refl)

close-Returns : (o x : Option GoError) → Returns o (close_with_err x)
unfolding close_with_err
close-Returns o x = tt

-- Every step of a goroutine or of the environment keeps the invariant.
pub Step-IsSound : (s s' : System) → Step s s' → IsSound s → IsSound s'
Step-IsSound s s' (run choice before after t s'' e e') v = subst IsSound (sym e') (
    run-IsSound choice s.listener before after t
      (subst IsSound (λ i. record { listener = s.listener; threads = e i }) v))
Step-IsSound s s' (send c s'' h e) v =
    subst IsSound (sym e) (record { safe = v.safe; balance = v.balance; returns = v.returns })
Step-IsSound s s' (close_channel s'' h e) v =
    subst IsSound (sym e) (record { safe = v.safe; balance = v.balance; returns = v.returns })
Step-IsSound s s' (call_accept s'' e) v = subst IsSound (sym e) (record {
  safe = v.safe;
  balance = Balance-eq s.listener.close_err s.listener.done (omega arith) (omega arith) v.balance;
  returns = (tt, v.returns);
})
Step-IsSound s s' (call_close x s'' e) v = subst IsSound (sym e) (record {
  safe = v.safe;
  balance =
      Balance-eq s.listener.close_err s.listener.done (omega (arith, close_weights x))
        (omega (arith, close_weights x)) v.balance;
  returns = (close-Returns s.listener.close_err x, v.returns);
})

-- Whatever the goroutines do, and in whatever order: nothing closes `done` twice or follows a nil
-- error, and every `Accept` that returns an error returns the stored one.
pub Reach-IsSound : (input : Channel) (s : System) → Reach (initial input) s → IsSound s
Reach-IsSound input s here =
    unfold new_listener in record { safe = refl; balance = (refl, refl, refl); returns = tt }
Reach-IsSound input s (next {t} r st) = Step-IsSound t s st (Reach-IsSound input t r)

Step-keeps_err :
    (s s' : System) (e : GoError)
    → Step s s'
    → s.listener.close_err ≡ some e
    → s'.listener.close_err ≡ some e
Step-keeps_err s s' e (run choice before after t s'' p q) h =
    ap (λ (x : System). x.listener.close_err) q ∙ step_keeps_err choice s.listener t e h
Step-keeps_err s s' e (send c s'' p q) h = ap (λ (x : System). x.listener.close_err) q ∙ h
Step-keeps_err s s' e (close_channel s'' p q) h = ap (λ (x : System). x.listener.close_err) q ∙ h
Step-keeps_err s s' e (call_accept s'' q) h = ap (λ (x : System). x.listener.close_err) q ∙ h
Step-keeps_err s s' e (call_close x s'' q) h = ap (λ (x : System). x.listener.close_err) q ∙ h

-- The first error wins: once one is stored, no later step changes it.
pub Reach-keeps_err :
    (s s' : System) (e : GoError)
    → Reach s s'
    → s.listener.close_err ≡ some e
    → s'.listener.close_err ≡ some e
Reach-keeps_err s s' e here h = h
Reach-keeps_err s s' e (next {t} r st) h = Step-keeps_err t s' e st (Reach-keeps_err s t e r h)
