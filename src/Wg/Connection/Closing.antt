-- ===== src/Wg/Connection/Closing.antt =====
-- What `New` acquires is closed once, or handed over.
use mathlib.Core.List.{reverse, reverse-append, reverse-cons}
use mathlib.Core.Path.{subst}
use point_c.Base.{
  ℕ, ◌≡◌, ◌∙◌, refl, ap, Option, none, some, List, [], ◌∷◌, ◌++◌, GoError, new, append_assoc, arith,
  Option-cases, inl, inr, sym,
}
use point_c.Wg.Options.{
  Device, Closer, close_bind, close_device, device_down, Options, zero_options, Pointers, OptionFn,
  apply, clean_up_calls, clean_up_error, unless_failed, apply-append, option_err, option_net_device,
  apply-option_err,
}
use point_c.Wg.Connection.{
  Wireguard, Env, Outcome, fail, bring_up, with_bind, with_options, after_options, new_wireguard,
  close_loop, close_wireguard,
}

-- An interface comes with no error, has closed nothing, and holds the closers `full`; or there is
-- an error, and those of `part` have been called, in this order.
abbrev pub Accounted :
    List Closer → List Closer → Option GoError → List Closer → Option Wireguard → Type 0
Accounted full part e called (some w) =
    (e ≡ none) × (called ≡ []) × (w.close ≡ none) × (w.closers ≡ full)
Accounted full part e called none = ((x : GoError) × (e ≡ some x)) × (called ≡ part)

abbrev pub IsAccounted : List Closer → List Closer → Outcome → Type 0
IsAccounted full part r = Accounted full part r.error r.called r.wireguard

fail-IsAccounted :
    (env : Env) (o : Options) (ps : Pointers) (x : GoError) (full : List Closer)
    → IsAccounted full o.closer (fail env o ps x)
fail-IsAccounted env o ps x full =
    (clean_up_error env.run o.closer x, clean_up_calls env.run o.closer (some x))

bring_up-IsAccounted :
    (env : Env) (d : Device) (b : ℕ) (o : Options) (ps : Pointers)
    → IsAccounted (o.closer ++ device_down ∷ []) o.closer (bring_up env d b o ps)
unfolding bring_up
bring_up-IsAccounted env d b o ps = elim (Option-cases env.up) [
  | inl h ↦ rw (h, bring_up) (refl, refl, refl, refl)
  | inr (x, h) ↦ rw (h, bring_up) (fail-IsAccounted env o ps x (o.closer ++ device_down ∷ []))
]

with_bind-IsAccounted :
    (env : Env) (d : Device) (b : ℕ) (o : Options) (ps : Pointers)
    → IsAccounted
        (o.closer ++ close_device ∷ device_down ∷ [])
        (o.closer ++ close_device ∷ [])
        (with_bind env d b o ps)
unfolding with_bind
with_bind-IsAccounted env d b o ps = elim (Option-cases o.cfg) [
  | inl h ↦ rw (h, with_bind) kept
  | inr (cfg, h) ↦ elim (Option-cases (env.ipc_set cfg)) [
    | inl k ↦ rw (h, k, with_bind) kept
    | inr (x, k) ↦
        rw (h, k, with_bind)
          (fail-IsAccounted env o' ps x (o.closer ++ close_device ∷ device_down ∷ []))
  ]
]
  where
    o' : Options
    o' = record o { closer = o.closer ++ close_device ∷ [] }

    kept :
        IsAccounted
          (o.closer ++ close_device ∷ device_down ∷ [])
          (o.closer ++ close_device ∷ [])
          (bring_up env d b o' ps)
    kept =
        rw (sym (append_assoc o.closer (close_device ∷ []) (device_down ∷ [])))
          (bring_up-IsAccounted env d b o' ps)

-- The closer of a bind that `New` makes itself.
abbrev pub bind_closers : Env → Options → List Closer
bind_closers env o = elim o.bind [ some b ↦ [] | none ↦ close_bind env.default_bind ∷ [] ]

-- What `New` has acquired at its end, without the last closer.
abbrev pub acquired : Env → Options → List Closer
acquired env o = elim o.tun [
  | none ↦ o.closer
  | some d ↦ o.closer ++ (bind_closers env o ++ close_device ∷ [])
]

with_options-IsAccounted :
    (env : Env) (o : Options) (ps : Pointers)
    → IsAccounted (acquired env o ++ device_down ∷ []) (acquired env o) (with_options env o ps)
unfolding with_options
with_options-IsAccounted env o ps = elim (Option-cases o.tun) [
  | inl h ↦
      rw (h, with_options)
        (fail-IsAccounted env o ps (new "no device specified") (o.closer ++ device_down ∷ []))
  | inr (d, h) ↦ elim (Option-cases o.bind) [
    | inr (b, k) ↦
        rw (h, k, with_options, append_assoc o.closer (close_device ∷ []) (device_down ∷ []))
          (with_bind-IsAccounted env d b o ps)
    | inl k ↦ rw (h, k, with_options) (made d)
  ]
]
  where
    made :
        (d : Device)
        → IsAccounted
            ((o.closer ++ close_bind env.default_bind ∷ close_device ∷ []) ++ device_down ∷ [])
            (o.closer ++ close_bind env.default_bind ∷ close_device ∷ [])
            (with_bind env d env.default_bind
              (record o {
                bind = some env.default_bind;
                closer = o.closer ++ close_bind env.default_bind ∷ [];
              })
              ps)
    made d =
        rw
          (
            append_assoc o.closer (close_bind env.default_bind ∷ close_device ∷ [])
                (device_down ∷ []),
            sym (
                append_assoc o.closer (close_bind env.default_bind ∷ [])
                  (close_device ∷ device_down ∷ [])),
            sym (append_assoc o.closer (close_bind env.default_bind ∷ []) (close_device ∷ [])),
          )
          (with_bind-IsAccounted env d env.default_bind
            (record o {
              bind = some env.default_bind;
              closer = o.closer ++ close_bind env.default_bind ∷ [];
            })
            ps)

close_loop-reverse :
    (run : Closer → Option GoError) (cs : List Closer) (e : Option GoError)
    → (close_loop run cs e).0 ≡ reverse cs
unfolding close_loop
close_loop-reverse run [] e = refl
close_loop-reverse run (c ∷ cs) e = rw (close_loop-reverse run cs e) (sym (reverse-cons c cs))

new_wireguard_applied :
    (env : Env) (opts : List OptionFn) (r : Options × Pointers × Option GoError)
    → apply opts zero_options [] ≡ r
    → new_wireguard env opts ≡ after_options env r
unfolding new_wireguard
new_wireguard_applied env opts r h = ap (after_options env) h

close_wireguard_open :
    (run : Closer → Option GoError) (w : Wireguard) (full : List Closer)
    → w.close ≡ none
    → w.closers ≡ full
    → (let (w', calls, e) = close_wireguard run w in
        let (w'', again, e') = close_wireguard run w' in
        (calls ≡ reverse full) × (again ≡ []) × (e' ≡ e))
unfolding close_wireguard
close_wireguard_open run w full h k =
    rw (h, k, close_wireguard) (close_loop-reverse run full none, refl, refl)

-- Once the options have been applied, `New` accounts for all it has acquired: the interface holds
-- it, in the order acquired, or it fails with an error and has closed it, in that order.
pub new_wireguard-IsAccounted :
    (env : Env) (opts : List OptionFn) (o : Options) (ps : Pointers)
    → apply opts zero_options [] ≡ (o, ps, none)
    → IsAccounted (acquired env o ++ device_down ∷ []) (acquired env o) (new_wireguard env opts)
unfolding after_options
new_wireguard-IsAccounted env opts o ps h =
    subst (λ r. IsAccounted (acquired env o ++ device_down ∷ []) (acquired env o) r)
      (sym (new_wireguard_applied env opts (o, ps, none) h)) (with_options-IsAccounted env o ps)

-- `Close` of an interface that `New` has returned brings the device down and then closes all that
-- was acquired, the last first. A second `Close` calls nothing and returns the same error.
pub close_wireguard-new_wireguard :
    (env : Env) (opts : List OptionFn) (o : Options) (ps : Pointers) (w : Wireguard)
    → apply opts zero_options [] ≡ (o, ps, none)
    → (new_wireguard env opts).wireguard ≡ some w
    → (let (w', calls, e) = close_wireguard env.run w in
        let (w'', again, e') = close_wireguard env.run w' in
        (calls ≡ device_down ∷ reverse (acquired env o)) × (again ≡ []) × (e' ≡ e))
close_wireguard-new_wireguard env opts o ps w h k =
    let full = acquired env o ++ device_down ∷ [] in
    let r = new_wireguard env opts in
    let (_, _, shut, holds) =
      subst (Accounted full (acquired env o) r.error r.called) k
        (new_wireguard-IsAccounted env opts o ps h) in
    let (calls, again, same) = close_wireguard_open env.run w full shut holds in
    (calls ∙ reverse-append (acquired env o) (device_down ∷ []), again, same)

-- An error of an option behind `OptionNetDevice` makes `New` fail without closing the netstack that
-- this option has opened, though the caller's pointer has it.
pub new_wireguard-option_err :
    (env : Env) (a b : List OptionFn) (o : Options) (ps : Pointers) (n p : ℕ) (x : GoError)
    → apply a zero_options [] ≡ (o, ps, none)
    → (let r = new_wireguard env (a ++ option_net_device (inl n) (some p) ∷ option_err x ∷ b) in
        (r.wireguard ≡ none) × (r.error ≡ some x) × (r.called ≡ []) × (r.pointers ≡ (p, n) ∷ ps))
unfolding after_options
new_wireguard-option_err env a b o ps n p x h =
    let rest = option_net_device (inl n) (some p) ∷ option_err x ∷ b in
    let applied =
      apply-append a rest zero_options []
      ∙ ap (λ r. unless_failed r (apply rest)) h
      ∙ apply-option_err n p x b o ps in
    let made = new_wireguard_applied env (a ++ rest) _ applied in
    (
      ap (λ r. r.wireguard) made,
      ap (λ r. r.error) made,
      ap (λ r. r.called) made,
      ap (λ r. r.pointers) made,
    )

Accounted-none :
    (full part called : List Closer) (e : Option GoError) (w : Option Wireguard) (x : GoError)
    → e ≡ some x
    → Accounted full part e called w
    → w ≡ none
Accounted-none full part called e none x h acc = refl
Accounted-none full part called e (some w) x h (no_error, a, b, c) = ground arith

-- `New` never returns an interface beside an error.
pub new_wireguard_failed :
    (env : Env) (opts : List OptionFn) (x : GoError)
    → (new_wireguard env opts).error ≡ some x
    → (new_wireguard env opts).wireguard ≡ none
unfolding after_options
new_wireguard_failed env opts x h = by_options (apply opts zero_options []) refl
  where
    by_options :
        (r : Options × Pointers × Option GoError)
        → apply opts zero_options [] ≡ r
        → (new_wireguard env opts).wireguard ≡ none
    by_options (o, ps, none) k =
        Accounted-none _ _ _ _ _ x h (new_wireguard-IsAccounted env opts o ps k)
    by_options (o, ps, some y) k = ap (λ r. r.wireguard) (new_wireguard_applied env opts _ k)
