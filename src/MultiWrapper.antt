-- ===== src/MultiWrapper.antt =====
-- merge-listener-wrapper.go: several listeners are merged into one.
pub mod Listen
pub mod Cleanup
use point_c.Base.{
  ℕ, ◌+◌, ◌≡◌, refl, Bool, true, false, Option, none, some, List, [], ◌∷◌, ◌++◌, Bytes, codes,
  GoError, new, Result, ok, err, panic, join, inl, inr,
}
use point_c.Caddyfile.{Line, Directive, Tokens, LoadModule}

-- A value of the interface net.Listener.
abbrev pub ListenerId : Type 0
ListenerId = ℕ

-- `MultiWrapper`; `conns` says whether the channel has been made.
pub record MultiWrapper : Type 0 where
  pub listener_raw : Option (List Bytes)
  pub listeners : List ListenerId
  pub conns : Bool

-- `MultiWrapper{}`.
abbrev pub zero_wrapper : MultiWrapper
zero_wrapper = record { listener_raw = none; listeners = []; conns = false }

-- What `ctx.LoadModule` gives: for each module a listener, or a value that is none.
pub data Module : Type 0 where
  listener : ListenerId → Module
  other : Module

-- The assertions `ls.(net.Listener)`; a module that is no listener is a panic.
assert_listeners : List Module → Result (List ListenerId)
assert_listeners [] = ok []
assert_listeners (other ∷ ms) = panic
assert_listeners (listener l ∷ ms) = elim (assert_listeners ms) [
  | ok ls ↦ ok (l ∷ ls)
  | err e ↦ err e
  | panic ↦ panic
]

provision_loaded : MultiWrapper → Result (List Module) → Result (MultiWrapper × Option GoError)
unfolding assert_listeners
provision_loaded p (err e) = ok (p, some e)
provision_loaded p panic = panic
provision_loaded p (ok ms) = elim (assert_listeners ms) [
  | ok ls ↦ ok (record p { listeners = ls; conns = true }, none)
  | err e ↦ err e
  | panic ↦ panic
]

-- `Provision`, with the result of `ctx.LoadModule(p, "ListenerRaw")` given.
unfoldable pub provision :
    MultiWrapper → Result (List Module) → Result (MultiWrapper × Option GoError)
unfolding provision_loaded
provision p loaded = elim p.listener_raw [
  | none ↦ ok (p, some (new "no listener provided"))
  | some _ ↦ provision_loaded p loaded
]

-- The loop of `Cleanup`: the listeners closed so far, in order, and the joined error.
close_all :
    (ListenerId → Option GoError)
    → List ListenerId
    → List ListenerId
    → Option GoError
    → List ListenerId × Option GoError
close_all close_listener [] closed e = (closed, e)
close_all close_listener (l ∷ ls) closed e =
    close_all close_listener ls (closed ++ l ∷ []) (join e (close_listener l))

-- `Cleanup`, with the result of each listener's `Close` given: the wrapper, the listeners that were
-- closed, in order, and the error.
unfoldable pub cleanup :
    (ListenerId → Option GoError) → MultiWrapper → MultiWrapper × List ListenerId × Option GoError
unfolding close_all
cleanup close_listener p =
    let (closed, e) = close_all close_listener p.listeners [] none in (zero_wrapper, closed, e)

-- `WrapListener`: the wrapper, and the listeners for which it starts a goroutine `listen`.
unfoldable pub wrap_listener : MultiWrapper → ListenerId → MultiWrapper × List ListenerId
wrap_listener p ls =
    let listeners = p.listeners ++ ls ∷ [] in (record p { listeners = listeners }, listeners)

-- `append(p.ListenerRaw, raw)`.
append_raw : Option (List Bytes) → Bytes → Option (List Bytes)
append_raw none raw = some (raw ∷ [])
append_raw (some rs) raw = some (rs ++ raw ∷ [])

-- The loop of `UnmarshalCaddyfile` over the lines of one block.
unmarshal_block : LoadModule → MultiWrapper → List Line → MultiWrapper × Option GoError
unfolding append_raw
unmarshal_block load p [] = (p, none)
unmarshal_block load p (l ∷ ls) =
    elim (load (codes "caddy.listeners.multi.listeners." ++ l.head) l) [
      | inl raw ↦
          unmarshal_block load (record p { listener_raw = append_raw p.listener_raw raw }) ls
      | inr e ↦ (p, some e)
    ]

-- `UnmarshalCaddyfile`.
unfoldable pub unmarshal_caddyfile :
    LoadModule → MultiWrapper → Tokens → MultiWrapper × Option GoError
unfolding unmarshal_block
unmarshal_caddyfile load p [] = (p, none)
unmarshal_caddyfile load p (d ∷ ds) =
    let (p', e) = unmarshal_block load p d.block in
    elim e [ some x ↦ (p', some x) | none ↦ unmarshal_caddyfile load p' ds ]
