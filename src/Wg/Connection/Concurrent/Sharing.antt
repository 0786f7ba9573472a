-- ===== src/Wg/Connection/Concurrent/Sharing.antt =====
-- pkg/wg/connection.go, `Wireguard.Close`: what the goroutines that call it return.
use mathlib.Core.Path.{subst}
use mathlib.Core.List.{reverse, reverse-cons}
use point_c.Base.{
  ℕ, ◌+◌, ◌≡◌, ◌≢◌, ◌∙◌, refl, sym, ap, Bool, true, false, Option, none, List, [], ◌∷◌, ◌++◌,
  GoError, join, All, All-append, All-split, All-mono, append_assoc, append-nil, total, total-split,
  arith, List-cases, Bool-cases, ◌⊎◌, inl, inr,
}
use point_c.Wg.Options.{Closer}
use point_c.Wg.Connection.{close_loop}
use point_c.Wg.Connection.Concurrent.{
  Shared, Caller, entering, looping, loading, returned, enter, call_next, caller_step, System, step,
  call, Reach, here, next, opened,
}

module _ (run : Closer → Option GoError) where
  -- The errors of these calls, joined one after the other.
  abbrev pub joined : List Closer → Option GoError → Option GoError
  joined [] e = e
  joined (c ∷ cs) e = joined cs (join e (run c))

  joined-snoc :
      (cs : List Closer) (c : Closer) (e : Option GoError)
      → joined (cs ++ c ∷ []) e ≡ join (joined cs e) (run c)
  joined-snoc [] c e = refl
  joined-snoc (d ∷ cs) c e = joined-snoc cs c (join e (run d))

  abbrev in_loop : Caller → ℕ
  in_loop looping = 1
  in_loop _ = 0

  -- The loop runs at most once, and not before the compare-and-swap.
  abbrev Runs : Bool → ℕ → Type 0
  Runs false n = n ≡ 0
  Runs true n = (n ≡ 0) ⊎ (n ≡ 1)

  -- What a call knows, with the closers that are left, those that were called, and the error so
  -- far: the one that ran the loop returns all errors, when all closers have been called; another
  -- returns the errors of some closers that were called first.
  abbrev pub Knows : List Closer → Option GoError → List Closer → Caller → Type 0
  Knows pending err called (loading true) = pending ≡ []
  Knows pending err called (returned true e) = (pending ≡ []) × (e ≡ err)
  Knows pending err called (returned false e) =
      (done : List Closer) × (later : List Closer) × (called ≡ done ++ later)
      × (e ≡ joined done none)
  Knows pending err called _ = Unit {0}

  -- What a step of one goroutine leaves of the facts about the others.
  record Advances (d d' : Shared) : Type 0 where
    grows : (later : List Closer) × (d'.called ≡ d.called ++ later)
    settled : d.pending ≡ [] → (d'.pending ≡ []) × (d'.err ≡ d.err)

  still : (d : Shared) → Advances d d
  still d = record { grows = ([], sym (append-nil d.called)); settled = λ e. (e, refl) }

  record Ordered (closers : List Closer) (d : Shared) : Type 0 where
    order : d.called ++ d.pending ≡ reverse closers
    sum : d.err ≡ joined d.called none

  -- One step of a goroutine, with the number of others that are in the loop.
  record Stepped (closers : List Closer) (d : Shared) (r : Shared × Caller) (n : ℕ) : Type 0 where
    ordered : Ordered closers r.0
    runs : Runs r.0.is_set (in_loop r.1 + n)
    knows : Knows r.0.pending r.0.err r.0.called r.1
    advances : Advances d r.0

  cons-ne-nil : (c : Closer) (cs : List Closer) → c ∷ cs ≢ []
  cons-ne-nil c cs h = ground arith

  leave_loop : (b : Bool) (n : ℕ) → Runs b (1 + n) → Runs b (0 + n)
  leave_loop false n r = absurd (omega (arith, r))
  leave_loop true n (inl r) = absurd (omega (arith, r))
  leave_loop true n (inr r) = inl (omega (arith, r))

  enter-Stepped :
      (closers : List Closer) (d : Shared) (n : ℕ)
      → Ordered closers d
      → Runs d.is_set (0 + n)
      → Stepped closers d (enter d) n
  unfolding enter
  enter-Stepped closers d n o r = elim (Bool-cases d.is_set) [
    | inl e ↦ simp (e, enter) (record { ordered = o; runs = r; knows = tt; advances = still d })
    | inr e ↦
        simp (e, enter)
          (record {
            ordered = record { order = o.order; sum = o.sum };
            runs = inr (omega (arith, subst (λ b. Runs b (0 + n)) e r));
            knows = tt;
            advances = record { grows = ([], sym (append-nil d.called)); settled = λ q. (q, refl) };
          })
  ]

  call_next-Stepped :
      (closers : List Closer) (d : Shared) (n : ℕ)
      → Ordered closers d
      → Runs d.is_set (1 + n)
      → Stepped closers d (call_next run d) n
  unfolding call_next
  call_next-Stepped closers d n o r = elim (List-cases d.pending) [
    | inl e ↦
        simp (e, call_next)
          (record { ordered = o; runs = leave_loop d.is_set n r; knows = e; advances = still d })
    | inr (c, cs, e) ↦
        simp (e, call_next)
          (record {
            ordered = record {
              order = append_assoc d.called (c ∷ []) cs ∙ ap (◌++◌ d.called) (sym e) ∙ o.order;
              sum = ap (λ x. join x (run c)) o.sum ∙ sym (joined-snoc d.called c none);
            };
            runs = r;
            knows = tt;
            advances = record {
              grows = (c ∷ [], refl);
              settled = λ q. absurd (cons-ne-nil c cs (sym e ∙ q));
            };
          })
  ]

  caller_step-Stepped :
      (closers : List Closer) (d : Shared) (t : Caller) (n : ℕ)
      → Ordered closers d
      → Runs d.is_set (in_loop t + n)
      → Knows d.pending d.err d.called t
      → Stepped closers d (caller_step run d t) n
  unfolding caller_step
  caller_step-Stepped closers d entering n o r k = enter-Stepped closers d n o r
  caller_step-Stepped closers d looping n o r k = call_next-Stepped closers d n o r
  caller_step-Stepped closers d (loading true) n o r k = record {
    ordered = o;
    runs = r;
    knows = (k, refl);
    advances = still d;
  }
  caller_step-Stepped closers d (loading false) n o r k = record {
    ordered = o;
    runs = r;
    knows = (d.called, [], sym (append-nil d.called), o.sum);
    advances = still d;
  }
  caller_step-Stepped closers d (returned first e) n o r k = record {
    ordered = o;
    runs = r;
    knows = k;
    advances = still d;
  }

  Knows-mono :
      (d d' : Shared)
      → Advances d d'
      → (t : Caller) → Knows d.pending d.err d.called t
      → Knows d'.pending d'.err d'.called t
  Knows-mono d d' a entering k = tt
  Knows-mono d d' a looping k = tt
  Knows-mono d d' a (loading true) k = (a.settled k).0
  Knows-mono d d' a (loading false) k = tt
  Knows-mono d d' a (returned true e) (k, q) = let (p, s) = a.settled k in (p, q ∙ sym s)
  Knows-mono d d' a (returned false e) (done, later, split, q) =
      let (more, g) = a.grows in
      (done, later ++ more, g ∙ ap (λ l. l ++ more) split ∙ append_assoc done later more, q)

  -- The closers are called in reverse order, each once; the error is that of those that were
  -- called; one goroutine at most runs the loop; and every call knows what it returns.
  pub record IsOrderly (closers : List Closer) (s : System run) : Type 0 where
    pub order : s.shared.called ++ s.shared.pending ≡ reverse closers
    pub sum : s.shared.err ≡ joined s.shared.called none
    pub runs : Runs s.shared.is_set (total in_loop s.callers)
    pub known : All (Knows s.shared.pending s.shared.err s.shared.called) s.callers

  step-IsOrderly :
      (closers : List Closer) (d : Shared) (before after : List Caller) (t : Caller)
      → IsOrderly closers (record { shared = d; callers = before ++ t ∷ after })
      → IsOrderly closers (record {
        shared = (caller_step run d t).0;
        callers = before ++ (caller_step run d t).1 ∷ after;
      })
  step-IsOrderly closers d before after t v =
      let d' = (caller_step run d t).0 in
      let t' = (caller_step run d t).1 in
      let n = total in_loop before + total in_loop after in
      let (l, m, r) = All-split (Knows d.pending d.err d.called) before after t v.known in
      let st =
        caller_step-Stepped closers d t n (record { order = v.order; sum = v.sum })
          (subst (Runs d.is_set) (total-split in_loop before after t) v.runs) m in
      let mono = Knows-mono d d' st.advances in
      record {
        order = st.ordered.order;
        sum = st.ordered.sum;
        runs = subst (Runs d'.is_set) (sym (total-split in_loop before after t')) st.runs;
        known =
            All-append (Knows d'.pending d'.err d'.called) before (t' ∷ after)
              (All-mono mono before l) (st.knows, All-mono mono after r);
      }

  Reach-IsOrderly :
      (closers : List Closer) (s : System run)
      → Reach run (opened run closers) s
      → IsOrderly closers s
  Reach-IsOrderly closers s here = record { order = refl; sum = refl; runs = refl; known = tt }
  Reach-IsOrderly closers s (next {t} r (step before after c e e')) =
      subst (IsOrderly closers) (sym e') (
        step-IsOrderly closers t.shared before after c (
          subst (IsOrderly closers) (λ i. record t { callers = e i })
            (Reach-IsOrderly closers t r)))
  Reach-IsOrderly closers s (next {t} r (call e)) =
      let v = Reach-IsOrderly closers t r in
      subst (IsOrderly closers) (sym e) (record {
        order = v.order;
        sum = v.sum;
        runs = subst (Runs t.shared.is_set) (omega arith) v.runs;
        known = (tt, v.known);
      })

  joined-reverse : (cs : List Closer) → joined (reverse cs) none ≡ (close_loop run cs none).1
  unfolding close_loop
  joined-reverse [] = refl
  joined-reverse (c ∷ cs) =
      ap (λ l. joined l none) (reverse-cons c cs)
      ∙ joined-snoc (reverse cs) c none
      ∙ ap (λ e. join e (run c)) (joined-reverse cs)

  -- What a returned call has returned.
  abbrev pub Told : List Closer → Caller → Type 0
  Told closers (returned true e) = e ≡ (close_loop run closers none).1
  Told closers (returned false e) =
      (done : List Closer) × (rest : List Closer) × (done ++ rest ≡ reverse closers)
      × (e ≡ joined done none)
  Told closers _ = Unit {0}

  Knows-Told :
      (closers : List Closer) (d : Shared)
      → d.called ++ d.pending ≡ reverse closers
      → d.err ≡ joined d.called none
      → (t : Caller) → Knows d.pending d.err d.called t
      → Told closers t
  Knows-Told closers d order sum entering k = tt
  Knows-Told closers d order sum looping k = tt
  Knows-Told closers d order sum (loading first) k = tt
  Knows-Told closers d order sum (returned true e) (none_left, q) =
      q
      ∙ sum
      ∙ ap (λ l. joined l none)
          (sym (append-nil d.called) ∙ ap (◌++◌ d.called) (sym none_left) ∙ order)
      ∙ joined-reverse closers
  Knows-Told closers d order sum (returned false e) (done, later, split, q) = (
    done,
    later ++ d.pending,
    sym (append_assoc done later d.pending) ∙ ap (λ l. l ++ d.pending) (sym split) ∙ order,
    q,
  )

  -- However many goroutines call `Close`, and however they interleave: the closers are called from
  -- the last to the first and each at most once; the call that runs them returns what `Close` returns
  -- when it is called alone; any other call returns the joined errors of some closers called first;
  -- and a call that returns now, whichever it is, returns the joined errors of all closers that have
  -- been called by now.
  pub Reach-Told :
      (closers : List Closer) (s : System run)
      → Reach run (opened run closers) s
      → (s.shared.called ++ s.shared.pending ≡ reverse closers)
        × All (Told closers) s.callers
        × ((first : Bool)
            → caller_step run s.shared (loading first)
              ≡ (s.shared, returned first (joined s.shared.called none)))
  unfolding caller_step
  Reach-Told closers s r =
      let v = Reach-IsOrderly closers s r in
      (
        v.order,
        All-mono (Knows-Told closers s.shared v.order v.sum) s.callers v.known,
        λ first. ap (λ e. (s.shared, returned first e)) v.sum,
      )
