-- ===== src/Wg/Options.antt =====
-- pkg/wg/options.go: the options of `New`, applied one after the other.
use point_c.Base.{
  ℕ, ◌≡◌, refl, Option, none, some, List, [], ◌∷◌, ◌++◌, Bytes, GoError, new, join, ◌⊎◌, inl, inr,
}

-- A device for unencrypted traffic: a `Netstack` of this package, or one that the caller brings.
pub data Device : Type 0 where
  netstack : ℕ → Device
  device : ℕ → Device

-- A function of `options.closer`: that of `OptionNetDevice`, that of `OptionCloser`, and the three
-- that `New` appends.
pub data Closer : Type 0 where
  close_netstack : ℕ → Closer
  given : ℕ → Closer
  close_bind : ℕ → Closer
  close_device : Closer
  device_down : Closer

-- `options`; a configuration is the text that its `WGConfig` writes.
pub record Options : Type 0 where
  pub tun : Option Device
  pub bind : Option ℕ
  pub loggers : List ℕ
  pub cfg : Option Bytes
  pub closer : List Closer

-- `var o options`.
abbrev pub zero_options : Options
zero_options = record { tun = none; bind = none; loggers = []; cfg = none; closer = [] }

-- The `**Net` variables of the caller that have been assigned, with the netstack of each.
abbrev pub Pointers : Type 0
Pointers = List (ℕ × ℕ)

-- `option`.
abbrev pub OptionFn : Type 0
OptionFn = Options → Pointers → Options × Pointers × Option GoError

-- `if err := …; err != nil { return err }` before the rest.
abbrev pub unless_failed :
    Options × Pointers × Option GoError → OptionFn → Options × Pointers × Option GoError
unless_failed (o, ps, some e) rest = (o, ps, some e)
unless_failed (o, ps, none) rest = rest o ps

-- `options.apply`.
unfoldable pub apply : List OptionFn → Options → Pointers → Options × Pointers × Option GoError
apply [] o ps = (o, ps, none)
apply (opt ∷ opts) o ps = unless_failed (opt o ps) (apply opts)

-- `OptionNop`.
abbrev pub option_nop : OptionFn
option_nop o ps = (o, ps, none)

-- `OptionErr`.
abbrev pub option_err : GoError → OptionFn
option_err e o ps = (o, ps, some e)

-- `OptionDevice`.
abbrev pub option_device : Option Device → OptionFn
option_device none = option_nop
option_device (some d) = λ o ps. (record o { tun = some d }, ps, none)

-- `OptionBind`.
abbrev pub option_bind : Option ℕ → OptionFn
option_bind none = option_nop
option_bind (some b) = λ o ps. (record o { bind = some b }, ps, none)

-- `OptionLogger`.
abbrev pub option_logger : Option ℕ → OptionFn
option_logger none = option_nop
option_logger (some l) = λ o ps. (record o { loggers = o.loggers ++ l ∷ [] }, ps, none)

-- `OptionConfig`.
abbrev pub option_config : Option Bytes → OptionFn
option_config none = option_nop
option_config (some cfg) = λ o ps. (record o { cfg = some cfg }, ps, none)

-- `OptionNetDevice`, with the result of `NewDefaultNetstack` given.
abbrev pub option_net_device : ℕ ⊎ GoError → Option ℕ → OptionFn
option_net_device made none = option_err (new "invalid net pointer")
option_net_device (inr e) (some p) = λ o ps. (o, ps, some e)
option_net_device (inl n) (some p) = λ o ps. (
  record o { tun = some (netstack n); closer = o.closer ++ close_netstack n ∷ [] },
  (p, n) ∷ ps,
  none,
)

-- `OptionCloser`.
abbrev pub option_closer : ℕ → OptionFn
option_closer c o ps = (record o { closer = o.closer ++ given c ∷ [] }, ps, none)

-- The loop of `options.cleanUp`, when the construction has failed: the calls made and the error.
unfoldable pub clean_up :
    (Closer → Option GoError) → List Closer → Option GoError → List Closer × Option GoError
clean_up run [] e = ([], e)
clean_up run (c ∷ cs) e = let (done, e') = clean_up run cs (join e (run c)) in (c ∷ done, e')

pub clean_up_calls :
    (run : Closer → Option GoError) (cs : List Closer) (e : Option GoError)
    → (clean_up run cs e).0 ≡ cs
unfolding clean_up
clean_up_calls run [] e = refl
clean_up_calls run (c ∷ cs) e = rw (clean_up_calls run cs (join e (run c)))

-- An error is never lost in the cleaning up.
pub clean_up_error :
    (run : Closer → Option GoError) (cs : List Closer) (x : GoError)
    → (y : GoError) × ((clean_up run cs (some x)).1 ≡ some y)
unfolding clean_up
clean_up_error run [] x = (x, refl)
clean_up_error run (c ∷ cs) x = joined (run c) (λ y. clean_up_error run cs y)
  where
    joined :
        (r : Option GoError)
        → ((z : GoError) → (y : GoError) × ((clean_up run cs (some z)).1 ≡ some y))
        → (y : GoError) × ((clean_up run cs (join (some x) r)).1 ≡ some y)
    joined none rest = rest _
    joined (some r) rest = rest _

-- Options behind others are applied to what these leave, unless one of these has failed.
pub apply-append :
    (a b : List OptionFn) (o : Options) (ps : Pointers)
    → apply (a ++ b) o ps ≡ unless_failed (apply a o ps) (apply b)
unfolding apply
apply-append [] b o ps = refl
apply-append (opt ∷ a) b o ps = step (opt o ps) (apply-append a b)
  where
    step :
        (r : Options × Pointers × Option GoError)
        → ((o : Options) (ps : Pointers)
            → apply (a ++ b) o ps ≡ unless_failed (apply a o ps) (apply b))
        → unless_failed r (apply (a ++ b)) ≡ unless_failed (unless_failed r (apply a)) (apply b)
    step (o', ps', some x) rest = refl
    step (o', ps', none) rest = rest o' ps'

pub apply-option_err :
    (n p : ℕ) (x : GoError) (b : List OptionFn) (o : Options) (ps : Pointers)
    → apply (option_net_device (inl n) (some p) ∷ option_err x ∷ b) o ps ≡ (
      record o { tun = some (netstack n); closer = o.closer ++ close_netstack n ∷ [] },
      (p, n) ∷ ps,
      some x,
    )
unfolding apply
apply-option_err n p x b o ps = refl
