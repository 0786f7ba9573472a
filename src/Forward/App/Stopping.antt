-- ===== src/Forward/App/Stopping.antt =====
-- What `Start` opens, `Stop` closes.
use mathlib.Core.List.{reverse, reverse_aux, reverse-append}
use point_c.Base.{
  ℕ, ◌≡◌, ◌↔◌, refl, sym, ◌∙◌, ap, Option, none, some, List, [], ◌∷◌, ◌++◌, GoError, join, All, ◌⊎◌,
  inl, inr, append-nil, append_assoc, arith,
}
use point_c.Forward.App.{
  StopFn, close_listener, cancel_context, Forwarder, Forwards, start_all, start, run_all, stop_all,
  stop_app,
}

-- The functions that stop these listeners, as `Start` appends them.
abbrev pub stop_fns : List ℕ → List StopFn
stop_fns [] = []
stop_fns (ln ∷ lns) = close_listener ln ∷ cancel_context ln ∷ stop_fns lns

-- For each listener, the last first: its context is cancelled, and then it is closed.
abbrev pub stop_calls : List ℕ → List StopFn
stop_calls [] = []
stop_calls (ln ∷ lns) = stop_calls lns ++ cancel_context ln ∷ close_listener ln ∷ []

run_all_done :
    (call : StopFn → Option GoError) (fns done : List StopFn) (e : Option GoError)
    → (run_all call fns done e).0 ≡ done ++ fns
unfolding run_all
run_all_done call [] done e = sym (append-nil done)
run_all_done call (fn ∷ fns) done e =
    run_all_done call fns (done ++ fn ∷ []) (join e (call fn)) ∙ append_assoc done (fn ∷ []) fns

-- The errors of these calls, joined as `stopAll` joins them.
abbrev pub joined_errors : (StopFn → Option GoError) → List StopFn → Option GoError → Option GoError
joined_errors call [] e = e
joined_errors call (fn ∷ fns) e = joined_errors call fns (join e (call fn))

run_all_lem :
    (call : StopFn → Option GoError) (fns done : List StopFn) (e : Option GoError)
    → run_all call fns done e ≡ (done ++ fns, joined_errors call fns e)
unfolding run_all
run_all_lem call [] done e = rw (append-nil done) refl
run_all_lem call (fn ∷ fns) done e =
    run_all_lem call fns (done ++ fn ∷ []) (join e (call fn))
    ∙ rw (append_assoc done (fn ∷ []) fns) refl

reverse_aux-stop_fns :
    (lns : List ℕ) (acc : List StopFn) → reverse_aux (stop_fns lns) acc ≡ stop_calls lns ++ acc
reverse_aux-stop_fns [] acc = refl
reverse_aux-stop_fns (ln ∷ lns) acc =
    reverse_aux-stop_fns lns (cancel_context ln ∷ close_listener ln ∷ acc)
    ∙ sym (append_assoc (stop_calls lns) (cancel_context ln ∷ close_listener ln ∷ []) acc)

reverse-stop_fns :
    (stop : List StopFn) (lns : List ℕ)
    → reverse (stop ++ stop_fns lns) ≡ stop_calls lns ++ reverse stop
reverse-stop_fns stop lns =
    reverse-append stop (stop_fns lns)
    ∙ ap (λ fns. fns ++ reverse stop) (reverse_aux-stop_fns lns [] ∙ append-nil (stop_calls lns))

joined_errors-none :
    (call : StopFn → Option GoError) (fns : List StopFn) (e : Option GoError)
    → joined_errors call fns e ≡ none
    → (e ≡ none) × All (λ fn. call fn ≡ none) fns
joined_errors-none call [] e h = (h, tt)
joined_errors-none call (fn ∷ fns) e h =
    let (a, b, c) = joined_step (call fn) e (joined_errors-none call fns (join e (call fn)) h) in
    (a, (b, c))
  where
    joined_step :
        {A : Type 0} (x e : Option GoError) → (join e x ≡ none) × A → (e ≡ none) × (x ≡ none) × A
    joined_step none none (k, a) = (refl, refl, a)
    joined_step none (some y) (k, a) = ground arith
    joined_step (some y) none (k, a) = ground arith
    joined_step (some x) (some y) (k, a) = ground arith

All-joined_errors :
    (call : StopFn → Option GoError) (fns : List StopFn)
    → All (λ fn. call fn ≡ none) fns
    → joined_errors call fns none ≡ none
All-joined_errors call [] h = refl
All-joined_errors call (fn ∷ fns) (h, hs) = rw h (All-joined_errors call fns hs)

module _ {Net Addr : Type 0} where
  -- `listen` succeeds for the forwarders of a prefix, with these listeners, and fails behind it if
  -- there is an error.
  abbrev pub Opens :
      (Forwarder Net Addr → ℕ ⊎ GoError)
      → List (Forwarder Net Addr)
      → List ℕ
      → Option GoError
      → Type 0
  Opens listen [] [] e = e ≡ none
  Opens listen [] (ln ∷ lns) e = ⊥
  Opens listen (f ∷ fs) [] none = ⊥
  Opens listen (f ∷ fs) [] (some e) = listen f ≡ inr e
  Opens listen (f ∷ fs) (ln ∷ lns) e = (listen f ≡ inl ln) × Opens listen fs lns e

  start_all_lem :
      (listen : Forwarder Net Addr → ℕ ⊎ GoError) (fs : List (Forwarder Net Addr)) (lns : List ℕ)
      (e : Option GoError) (stop : List StopFn) (running : List ℕ)
      → Opens listen fs lns e
      → start_all listen fs stop running ≡ (stop ++ stop_fns lns, running ++ lns, e)
  unfolding start_all
  start_all_lem listen [] [] e stop running h = ground (arith, append-nil stop, append-nil running)
  start_all_lem listen [] (ln ∷ lns) e stop running h = absurd h
  start_all_lem listen (f ∷ fs) [] none stop running h = absurd h
  start_all_lem listen (f ∷ fs) [] (some e) stop running h =
      rw (h, start_all, append-nil stop, append-nil running)
  start_all_lem listen (f ∷ fs) (ln ∷ lns) e stop running (h, hs) = rw (
    h,
    start_all,
    start_all_lem listen fs lns e (stop ++ close_listener ln ∷ cancel_context ln ∷ [])
        (running ++ ln ∷ []) hs,
    append_assoc stop (close_listener ln ∷ cancel_context ln ∷ []) (stop_fns lns),
    append_assoc running (ln ∷ []) lns,
  )

  Opens-total :
      (listen : Forwarder Net Addr → ℕ ⊎ GoError) (fs : List (Forwarder Net Addr))
      → (lns : List ℕ) × (e : Option GoError) × Opens listen fs lns e
  Opens-total listen [] = ([], none, refl)
  Opens-total listen (f ∷ fs) = more (listen f) refl (Opens-total listen fs)
    where
      more :
          (r : ℕ ⊎ GoError)
          → listen f ≡ r
          → (lns : List ℕ) × (e : Option GoError) × Opens listen fs lns e
          → (lns : List ℕ) × (e : Option GoError) × Opens listen (f ∷ fs) lns e
      more (inr x) h rest = ([], some x, h)
      more (inl ln) h (lns, e, opens) = (ln ∷ lns, e, (h, opens))

  -- After `Start`, `Stop` cancels the context of each listener opened and then closes it, the last
  -- listener first, and then calls what was to be stopped before. This holds also where `Start`
  -- fails. The error is nil if and only if each call's is, and nothing is left to stop: a second
  -- `Stop` calls nothing.
  pub stop_app-start :
      (listen : Forwarder Net Addr → ℕ ⊎ GoError) (call : StopFn → Option GoError)
      (p : Forwards Net Addr) (lns : List ℕ) (e : Option GoError)
      → Opens listen p.forwarders lns e
      → (let (q, running, e') = start listen p in
          let (q', calls, stopped) = stop_app call q in
          let (again, calls', stopped') = stop_app call q' in
          (running ≡ lns)
          × (e' ≡ e)
          × (calls ≡ stop_calls lns ++ reverse p.stop)
          × ((stopped ≡ none) ↔ All (λ fn. call fn ≡ none) calls)
          × (calls' ≡ [])
          × (stopped' ≡ none))
  unfolding start stop_app stop_all run_all
  stop_app-start listen call p lns e h =
      rw
        (
          start_all_lem listen p.forwarders lns e p.stop [] h,
          run_all_lem call (reverse (p.stop ++ stop_fns lns)) [] none,
          reverse-stop_fns p.stop lns,
        )
        (
          refl,
          refl,
          refl,
          (
            (λ k. (joined_errors-none call (stop_calls lns ++ reverse p.stop) none k).1),
            All-joined_errors call (stop_calls lns ++ reverse p.stop),
          ),
          refl,
          refl,
        )
