-- ===== src/Pointc/Names.antt =====
-- `Provision` succeeds exactly when no name is declared twice, and then `Lookup` finds every
-- network.
use point_c.Base.{
  ◌≡◌, ◌↔◌, refl, sym, ap, ◌∙◌, Option, none, some, List, [], ◌∷◌, ◌++◌, Bytes, GoError, errorf,
  text, ok, lookup, insert, lookup-insert, bytes_eq_iff, arith, Option-cases, inl, inr,
}
use point_c.Pointc.{
  Pointc, Networks, Module, network, modules, add_network, add_networks, assert_networks, provision,
  provision_loaded, lookup_net,
}

module _ {Net : Type 0} where
  abbrev or_else : Option Net → Option Net → Option Net
  or_else (some v) o = some v
  or_else none o = o

  -- Every name is bound once.
  abbrev pub DistinctNames : Networks Net → Type 0
  DistinctNames [] = Unit {0}
  DistinctNames ((k, v) ∷ es) = (lookup k es ≡ none) × DistinctNames es

  -- No name of the first list is bound in the second.
  abbrev Apart : Networks Net → Networks Net → Type 0
  Apart [] m = Unit {0}
  Apart ((k, v) ∷ es) m = (lookup k m ≡ none) × Apart es m

  abbrev pub all_entries : List (Networks Net) → Networks Net
  all_entries [] = []
  all_entries (n ∷ ns) = n ++ all_entries ns

  Apart-insert_of :
      (k : Bytes) (v : Net) (es m : Networks Net)
      → Apart es (insert k v m)
      → (lookup k es ≡ none) × Apart es m
  unfolding lookup
  Apart-insert_of k v [] m h = (refl, tt)
  Apart-insert_of k v ((j, w) ∷ es) m (h, hs) =
      let (f, a) = Apart-insert_of k v es m hs in
      (
        ground (arith, lookup-insert k j v m, bytes_eq_iff k j, bytes_eq_iff j k),
        (ground (arith, lookup-insert k j v m), a),
      )

  Apart-insert :
      (k : Bytes) (v : Net) (es m : Networks Net)
      → lookup k es ≡ none
      → Apart es m
      → Apart es (insert k v m)
  unfolding lookup
  Apart-insert k v [] m h a = tt
  Apart-insert k v ((j, w) ∷ es) m h (a, as_) = (
    ground (arith, lookup-insert k j v m, bytes_eq_iff k j, bytes_eq_iff j k),
    Apart-insert k v es m (ground arith) as_,
  )

  add_network_fresh :
      (k : Bytes) (v : Net) (es m : Networks Net)
      → lookup k m ≡ none
      → add_network Net ((k, v) ∷ es) m ≡ add_network Net es (insert k v m)
  unfolding add_network
  add_network_fresh k v es m e = ground arith

  -- A name that is taken stops the loop.
  add_network-eq-none :
      (k : Bytes) (v : Net) (es m : Networks Net)
      → (add_network Net ((k, v) ∷ es) m).1 ≡ none
      → lookup k m ≡ none
  unfolding add_network
  add_network-eq-none k v es m h = ground (arith, Option-cases (lookup k m))

  or_else-insert :
      (j : Bytes) (v : Net) (es m : Networks Net) (k : Bytes)
      → lookup j m ≡ none
      → or_else (lookup k (insert j v m)) (lookup k es)
        ≡ or_else (lookup k m) (lookup k ((j, v) ∷ es))
  unfolding lookup
  or_else-insert j v es m k free = ground (arith, lookup-insert j k v m, bytes_eq_iff j k)

  -- The names are found exactly where they were declared.
  lookup-add_network :
      (es m : Networks Net) (k : Bytes)
      → (add_network Net es m).1 ≡ none
      → lookup k (add_network Net es m).0 ≡ or_else (lookup k m) (lookup k es)
  lookup-add_network [] m k h = unfold add_network lookup in ground arith
  lookup-add_network ((j, v) ∷ es) m k h =
      let free = add_network-eq-none j v es m h in
      let step = add_network_fresh j v es m free in
      rw step
        (lookup-add_network es (insert j v m) k (rw step at h) ∙ or_else-insert j v es m k free)

  add_network_sound :
      (es m : Networks Net) → (add_network Net es m).1 ≡ none → DistinctNames es × Apart es m
  add_network_sound [] m h = (tt, tt)
  add_network_sound ((j, v) ∷ es) m h =
      let free = add_network-eq-none j v es m h in
      let step = add_network_fresh j v es m free in
      let (distinct, apart) = add_network_sound es (insert j v m) (rw step at h) in
      let (unbound, apart') = Apart-insert_of j v es m apart in
      ((unbound, distinct), (free, apart'))

  add_network_complete :
      (es m : Networks Net) → DistinctNames es → Apart es m → (add_network Net es m).1 ≡ none
  add_network_complete [] m d a = unfold add_network in refl
  add_network_complete ((j, v) ∷ es) m (unbound, d) (free, a) =
      rw (add_network_fresh j v es m free)
        (add_network_complete es (insert j v m) d (Apart-insert j v es m unbound a))

  add_network_taken :
      (k : Bytes) (v w : Net) (es m : Networks Net)
      → lookup k m ≡ some w
      → add_network Net ((k, v) ∷ es) m ≡ (m, some (errorf "net %q declared twice" (text k ∷ [])))
  unfolding add_network
  add_network_taken k v w es m e = ground arith

  -- The loop over one network, and then the loop over more, unless the first returned.
  abbrev and_then : Networks Net × Option GoError → Networks Net → Networks Net × Option GoError
  and_then (m, none) b = add_network Net b m
  and_then (m, some e) b = (m, some e)

  add_network-append :
      (a b m : Networks Net) → add_network Net (a ++ b) m ≡ and_then (add_network Net a m) b
  add_network-append [] b m = unfold add_network in refl
  add_network-append ((j, v) ∷ a) b m = elim (Option-cases (lookup j m)) [
    | inl free ↦
        rw (add_network_fresh j v (a ++ b) m free, add_network_fresh j v a m free)
          (add_network-append a b (insert j v m))
    | inr (w, taken) ↦
        rw (add_network_taken j v w (a ++ b) m taken, add_network_taken j v w a m taken)
  ]

  abbrev next_networks :
      Networks Net × Option GoError → List (Networks Net) → Networks Net × Option GoError
  next_networks (m, none) ns = add_networks Net ns m
  next_networks (m, some e) ns = (m, some e)

  add_networks_step :
      (n : Networks Net) (ns : List (Networks Net)) (m : Networks Net)
      → add_networks Net (n ∷ ns) m ≡ next_networks (add_network Net n m) ns
  unfolding add_networks
  add_networks_step n ns m = ground arith

  -- The two loops of `Provision` are one loop over the entries of all networks.
  add_networks-all_entries :
      (ns : List (Networks Net)) (m : Networks Net)
      → add_networks Net ns m ≡ add_network Net (all_entries ns) m
  add_networks-all_entries [] m = unfold add_network add_networks in refl
  add_networks-all_entries (n ∷ ns) m =
      add_networks_step n ns m
      ∙ and_then-eq (add_network Net n m) (add_networks-all_entries ns)
      ∙ sym (add_network-append n (all_entries ns) m)
    where
      and_then-eq :
          (r : Networks Net × Option GoError)
          → ((m' : Networks Net) → add_networks Net ns m' ≡ add_network Net (all_entries ns) m')
          → next_networks r ns ≡ and_then r (all_entries ns)
      and_then-eq (m', none) ih = ih m'
      and_then-eq (m', some e) ih = refl

  abbrev pub map_modules : List (Networks Net) → List (Module Net)
  map_modules [] = []
  map_modules (n ∷ ns) = network n ∷ map_modules ns

  assert_networks-map_modules :
      (ns : List (Networks Net)) → assert_networks Net (map_modules ns) ≡ ok ns
  unfolding assert_networks
  assert_networks-map_modules [] = refl
  assert_networks-map_modules (n ∷ ns) = rw (assert_networks-map_modules ns, assert_networks)

  -- What `Provision` returns where networks are configured and every module is a network.
  provision_lem :
      (wg : Pointc Net) (raw : List Bytes) (ns : List (Networks Net))
      → wg.networks_raw ≡ some raw
      → provision Net wg (ok (modules (map_modules ns)))
        ≡ ok (
          record wg { networks = ns; net = (add_network Net (all_entries ns) []).0 },
          (add_network Net (all_entries ns) []).1,
        )
  unfolding provision provision_loaded
  provision_lem wg raw ns e =
      ground (arith, assert_networks-map_modules ns, add_networks-all_entries ns [])

  Apart-nil : (es : Networks Net) → Apart es []
  unfolding lookup
  Apart-nil [] = tt
  Apart-nil ((k, v) ∷ es) = (refl, Apart-nil es)

  -- With networks configured and every module a network, `Provision` returns no error exactly if no
  -- name is declared twice, in one network or in two.
  pub provision_error-DistinctNames :
      (wg : Pointc Net) (raw : List Bytes) (ns : List (Networks Net))
      → wg.networks_raw ≡ some raw
      → (wg' : Pointc Net) × (e : Option GoError) × (provision Net wg
            (ok (modules (map_modules ns)))
          ≡ ok (wg', e))
        × ((e ≡ none) ↔ DistinctNames (all_entries ns))
  provision_error-DistinctNames wg raw ns h =
      let es = all_entries ns in
      let r = add_network Net es [] in
      (
        record wg { networks = ns; net = r.0 },
        r.1,
        provision_lem wg raw ns h,
        ((λ e. (add_network_sound es [] e).0), (λ d. add_network_complete es [] d (Apart-nil es))),
      )

  -- With networks configured, every module a network and no name declared twice, `Provision`
  -- succeeds, and `Lookup` then finds for each name the network that was declared under it, and
  -- nothing for another name.
  pub lookup_net-provision :
      (wg : Pointc Net) (raw : List Bytes) (ns : List (Networks Net))
      → wg.networks_raw ≡ some raw
      → DistinctNames (all_entries ns)
      → (wg' : Pointc Net) × (provision Net wg (ok (modules (map_modules ns))) ≡ ok (wg', none))
        × ((name : Bytes) → lookup_net Net wg' name ≡ lookup name (all_entries ns))
  unfolding lookup_net
  lookup_net-provision wg raw ns h d =
      let es = all_entries ns in
      let r = add_network Net es [] in
      let good : r.1 ≡ none = add_network_complete es [] d (Apart-nil es) in
      (
        record wg { networks = ns; net = r.0 },
        provision_lem wg raw ns h ∙ ap (λ e. ok (record wg { networks = ns; net = r.0 }, e)) good,
        λ name. lookup-add_network es [] name good ∙ unfold lookup in refl,
      )
