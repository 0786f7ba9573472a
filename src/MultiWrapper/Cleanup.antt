-- ===== src/MultiWrapper/Cleanup.antt =====
-- The listeners of a wrapper over its life: who accepts on them, and who closes them.
use point_c.Base.{
  Bytes, ◌*◌, ◌==◌, if◌then◌else◌, ℕ, ◌+◌, ◌≡◌, ◌↔◌, refl, sym, ◌∙◌, true, Option, none, some, List,
  [], ◌∷◌, ◌++◌, GoError, join, All, arith, append_assoc, append-nil, map, ok,
}
use point_c.MultiWrapper.{
  ListenerId, MultiWrapper, zero_wrapper, listener, assert_listeners, provision, provision_loaded,
  close_all, cleanup, wrap_listener,
}

module _ (close_listener : ListenerId → Option GoError) where
  close_all_closed :
      (ls closed : List ListenerId) (e : Option GoError)
      → (close_all close_listener ls closed e).0 ≡ closed ++ ls
  unfolding close_all
  close_all_closed [] closed e = sym (append-nil closed)
  close_all_closed (l ∷ ls) closed e =
      close_all_closed ls (closed ++ l ∷ []) (join e (close_listener l))
      ∙ append_assoc closed (l ∷ []) ls

  join-eq-none : (a b : Option GoError) → join a b ≡ none → (a ≡ none) × (b ≡ none)
  join-eq-none none none h = (refl, refl)
  join-eq-none none (some y) h = cc
  join-eq-none (some x) none h = cc
  join-eq-none (some x) (some y) h = cc

  close_all_error_of :
      (ls closed : List ListenerId) (e : Option GoError)
      → (close_all close_listener ls closed e).1 ≡ none
      → (e ≡ none) × All (λ l. close_listener l ≡ none) ls
  unfolding close_all
  close_all_error_of [] closed e h = (h, tt)
  close_all_error_of (l ∷ ls) closed e h =
      let (j, rest) = close_all_error_of ls (closed ++ l ∷ []) (join e (close_listener l)) h in
      let (a, b) = join-eq-none e (close_listener l) j in (a, (b, rest))

  close_all_error :
      (ls closed : List ListenerId)
      → All (λ l. close_listener l ≡ none) ls
      → (close_all close_listener ls closed none).1 ≡ none
  unfolding close_all
  close_all_error [] closed h = refl
  close_all_error (l ∷ ls) closed (h, hs) =
      rw (h, close_all) (close_all_error ls (closed ++ l ∷ []) hs)

  -- `Cleanup` closes every listener once, in order, and empties the wrapper; it returns no error
  -- exactly if no listener did.
  pub cleanup_lem :
      (p : MultiWrapper)
      → ((cleanup close_listener p).0 ≡ zero_wrapper)
        × ((cleanup close_listener p).1 ≡ p.listeners)
        × (((cleanup close_listener p).2 ≡ none) ↔ All (λ l. close_listener l ≡ none) p.listeners)
  unfolding cleanup
  cleanup_lem p = (
    refl,
    close_all_closed p.listeners [] none,
    ((λ h. (close_all_error_of p.listeners [] none h).1), close_all_error p.listeners []),
  )

map_modules-ok : (ls : List ListenerId) → assert_listeners (map listener ls) ≡ ok ls
unfolding assert_listeners
map_modules-ok [] = refl
map_modules-ok (l ∷ ls) = ground (arith, map_modules-ok ls)

-- `Provision`, with raw listeners configured that all load to listeners, succeeds, and wrapping one
-- more then starts one goroutine on each of them, in order.
pub wrap_listener-provision :
    (p : MultiWrapper) (raw : List Bytes) (ls : List ListenerId) (l : ListenerId)
    → p.listener_raw ≡ some raw
    → (q : MultiWrapper) × (provision p (ok (map listener ls)) ≡ ok (q, none))
      × ((wrap_listener q l).1 ≡ ls ++ l ∷ [])
      × ((wrap_listener q l).0.listeners ≡ ls ++ l ∷ [])
unfolding provision provision_loaded wrap_listener
wrap_listener-provision p raw ls l h =
    (record p { listeners = ls; conns = true }, ground (arith, map_modules-ok ls), refl, refl)

-- How many goroutines accept on a listener, of those that were started.
abbrev pub goroutines : ListenerId → List ListenerId → ℕ
goroutines l [] = 0
goroutines l (x ∷ xs) = (if x == l then 1 else 0) + goroutines l xs

goroutines-append :
    (l : ListenerId) (xs ys : List ListenerId)
    → goroutines l (xs ++ ys) ≡ goroutines l xs + goroutines l ys
goroutines-append l [] ys = omega arith
goroutines-append l (x ∷ xs) ys = omega (arith, goroutines-append l xs ys)

-- Two calls of `WrapListener` on one wrapper start two goroutines for each listener that the
-- wrapper had before, and for the one that the first call was given.
pub wrap_listener_twice :
    (p : MultiWrapper) (a b l : ListenerId)
    → goroutines l ((wrap_listener p a).1 ++ (wrap_listener (wrap_listener p a).0 b).1)
      ≡ 2 * goroutines l (p.listeners ++ a ∷ []) + goroutines l (b ∷ [])
unfolding wrap_listener
wrap_listener_twice p a b l =
    let xs = p.listeners ++ a ∷ [] in
    omega (arith, goroutines-append l xs (xs ++ b ∷ []), goroutines-append l xs (b ∷ []))
