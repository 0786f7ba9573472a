-- ===== src/Wglog/Broadcast.antt =====
-- pkg/wg/wglog/multi.go: `Multi` calls every logger once, the last one first.
use mathlib.Core.List.{reverse, reverse-cons}
use point_c.Base.{
  ℕ, ◌≡◌, ◌∙◌, refl, sym, ap, Option, none, some, List, [], ◌∷◌, ◌++◌, Bytes, append_assoc,
  append-nil, total, total-append, arith,
}
use point_c.Wgevents.{Arg}
use point_c.Wglog.{LogFn, Logger, no_output, append_fn, multi_loop, multi}

module _ {Out : Type 0} where
  -- What a function that may be nil puts out, if it is skipped then.
  abbrev pub output : Option (LogFn Out) → Bytes → List Arg → List Out
  output none format args = []
  output (some fn) format args = fn format args

  -- One of the two functions of the loggers, one after the other.
  abbrev pub output_all :
      (Logger Out → Option (LogFn Out)) → List (Logger Out) → Bytes → List Arg → List Out
  output_all pick [] format args = []
  output_all pick (l ∷ ls) format args =
      output (pick l) format args ++ output_all pick ls format args

  output_all-append :
      (pick : Logger Out → Option (LogFn Out)) (xs ys : List (Logger Out)) (format : Bytes)
      (args : List Arg)
      → output_all pick (xs ++ ys) format args
        ≡ output_all pick xs format args ++ output_all pick ys format args
  output_all-append pick [] ys format args = refl
  output_all-append pick (x ∷ xs) ys format args =
      ap (◌++◌ (output (pick x) format args)) (output_all-append pick xs ys format args)
      ∙ sym (append_assoc (output (pick x) format args) _ _)

  append_fn_lem :
      (o : Option (LogFn Out)) (fn : LogFn Out) (format : Bytes) (args : List Arg)
      → append_fn o fn format args ≡ output o format args ++ fn format args
  append_fn_lem none fn format args = refl
  append_fn_lem (some f) fn format args = refl

  -- One more logger in front of the list is the last one of the reversed list.
  output_all-reverse :
      (pick : Logger Out → Option (LogFn Out)) (l : Logger Out) (ls : List (Logger Out))
      (fn : LogFn Out) (format : Bytes) (args : List Arg)
      → output_all pick (reverse ls) format args ++ append_fn (pick l) fn format args
        ≡ output_all pick (reverse (l ∷ ls)) format args ++ fn format args
  output_all-reverse pick l ls fn format args =
      let before = output_all pick (reverse ls) format args in
      let one = output (pick l) format args in
      ap (◌++◌ before) (append_fn_lem (pick l) fn format args)
      ∙ sym (append_assoc before one (fn format args))
      ∙ ap (λ o. (before ++ o) ++ fn format args) (sym (append-nil one))
      ∙ ap (λ o. o ++ fn format args)
          (sym (output_all-append pick (reverse ls) (l ∷ []) format args)
            ∙ ap (λ r. output_all pick r format args) (sym (reverse-cons l ls)))

  multi_loop_lem :
      (ls : List (Logger Out)) (v e : LogFn Out) (format : Bytes) (args : List Arg)
      → ((multi_loop ls v e).0 format args
          ≡ output_all (λ l. l.verbosef) (reverse ls) format args ++ v format args)
        × ((multi_loop ls v e).1 format args
            ≡ output_all (λ l. l.errorf) (reverse ls) format args ++ e format args)
  unfolding multi_loop
  multi_loop_lem [] v e format args = (refl, refl)
  multi_loop_lem (l ∷ ls) v e format args =
      let (h, k) = multi_loop_lem ls (append_fn l.verbosef v) (append_fn l.errorf e) format args in
      (
        h ∙ output_all-reverse (λ x. x.verbosef) l ls v format args,
        k ∙ output_all-reverse (λ x. x.errorf) l ls e format args,
      )

  total-reverse :
      (pick : Logger Out → Option (LogFn Out)) (w : Out → ℕ) (ls : List (Logger Out))
      (format : Bytes) (args : List Arg)
      → total w (output_all pick (reverse ls) format args)
        ≡ total w (output_all pick ls format args)
  total-reverse pick w [] format args = refl
  total-reverse pick w (l ∷ ls) format args =
      let one = output (pick l) format args in
      ap (total w) (
        ap (λ r. output_all pick r format args) (reverse-cons l ls)
        ∙ output_all-append pick (reverse ls) (l ∷ []) format args
        ∙ ap (◌++◌ (output_all pick (reverse ls) format args)) (append-nil one))
      ∙ omega (
        arith,
        total-append w (output_all pick (reverse ls) format args) one,
        total-append w one (output_all pick ls format args),
        total-reverse pick w ls format args,
      )

  -- The logger that `Multi` makes calls, for each of its two functions, the functions of the
  -- loggers that are not nil, the last logger first; what they put out, they put out as often as if
  -- each logger were called once by itself.
  pub multi-output_all :
      (ls : List (Logger Out)) (format : Bytes) (args : List Arg)
      → (output (multi ls).verbosef format args
          ≡ output_all (λ l. l.verbosef) (reverse ls) format args)
        × (output (multi ls).errorf format args
            ≡ output_all (λ l. l.errorf) (reverse ls) format args)
        × ((w : Out → ℕ)
            → (total w (output (multi ls).verbosef format args)
                ≡ total w (output_all (λ l. l.verbosef) ls format args))
              × (total w (output (multi ls).errorf format args)
                  ≡ total w (output_all (λ l. l.errorf) ls format args)))
  unfolding multi
  multi-output_all ls format args =
      let (h, k) = multi_loop_lem ls no_output no_output format args in
      let h' = h ∙ append-nil (output_all (λ l. l.verbosef) (reverse ls) format args) in
      let k' = k ∙ append-nil (output_all (λ l. l.errorf) (reverse ls) format args) in
      (
        h',
        k',
        λ w. (
          ap (total w) h' ∙ total-reverse (λ l. l.verbosef) w ls format args,
          ap (total w) k' ∙ total-reverse (λ l. l.errorf) w ls format args,
        ),
      )
