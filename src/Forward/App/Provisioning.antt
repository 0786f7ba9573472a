-- ===== src/Forward/App/Provisioning.antt =====
-- `Provision` makes one forwarder for each pair that is not UDP, in order.
use mathlib.Core.Path.{subst}
use mathlib.Core.Sum.{inr-ne-inl}
use point_c.Base.{
  ℕ, ◌≡◌, ◌∙◌, refl, sym, ap, Bool, true, false, if◌then◌else◌, Bool-cases, Option-cases, Option,
  none, some, List, [], ◌∷◌, ◌++◌, Bytes, GoError, errorf, text, ◌⊎◌, inl, inr, append-nil,
  append_assoc, arith,
}
use point_c.Configvalues.Unmarshaler.{CaddyTextUnmarshaler}
use point_c.Strconv.{format_uint}
use point_c.Forward.PortPair.{PortPair, get_src, get_dst, is_udp, get_host}
use point_c.Forward.App.{
  Forward, Forwarder, Forwards, AddrTools, addr_text, tcp_forwarder, provision_ports, unless_failed,
  provision_forwards, with_forwarders, provision,
}

-- The pairs of a forward that are not UDP, with the name of its network.
abbrev pub tcp_ports : Bytes → List (CaddyTextUnmarshaler PortPair) → List (Bytes × PortPair)
tcp_ports name [] = []
tcp_ports name (pp ∷ pps) =
    let rest = tcp_ports name pps in if is_udp pp.value then rest else (name, pp.value) ∷ rest

abbrev pub tcp_pairs : List Forward → List (Bytes × PortPair)
tcp_pairs [] = []
tcp_pairs (fwd ∷ fwds) = tcp_ports fwd.name.value fwd.ports ++ tcp_pairs fwds

Sum-cases : {A B : Type 0} (s : A ⊎ B) → ((a : A) × (s ≡ inl a)) ⊎ ((b : B) × (s ≡ inr b))
Sum-cases (inl a) = inl (a, refl)
Sum-cases (inr b) = inr (b, refl)

get_or : {A B : Type 0} → A → A ⊎ B → A
get_or d (inl a) = a
get_or d (inr b) = d

from_inl : {A B : Type 0} {a b : A} → ◌≡◌ {A = A ⊎ B} (inl a) (inl b) → a ≡ b
unfolding get_or
from_inl {a = a} h = ap (get_or a) h

module _ {Net Addr : Type 0} (at : AddrTools Addr) (lookup : Bytes → Option Net) where
  -- The text of a pair's source: the host, if it has one, a colon and the source port.
  abbrev pub source_text : Option Bytes → ℕ → Bytes
  source_text none port = b':' ∷ format_uint port
  source_text (some host) port = at.print_ip host ++ b':' ∷ format_uint port

  addr_text-source_text :
      (pp : PortPair)
      → is_udp pp ≡ false
      → addr_text at lookup pp ≡ source_text (get_host pp) (get_src pp)
  unfolding addr_text
  addr_text-source_text pp u = elim (Option-cases (get_host pp)) [
    | inl e ↦ simp (u, e, addr_text)
    | inr (h, e) ↦ simp (u, e, addr_text)
  ]

  -- The forwarders are those of the pairs: each has the network found under the pair's name, the
  -- pair's destination port, and the address that Caddy parses of the text of the pair's source.
  abbrev pub Made : List (Bytes × PortPair) → List (Forwarder Net Addr) → Type 0
  Made [] [] = Unit {0}
  Made [] (f ∷ fs) = ⊥
  Made (p ∷ ps) [] = ⊥
  Made ((name, pp) ∷ ps) (f ∷ fs) =
      ((lookup name ≡ some f.net)
        × (f.dst ≡ get_dst pp)
        × (at.parse_network_address (source_text (get_host pp) (get_src pp)) ≡ inl f.addr))
      × Made ps fs

  Made-append :
      (ps qs : List (Bytes × PortPair)) (fs gs : List (Forwarder Net Addr))
      → Made ps fs
      → Made qs gs
      → Made (ps ++ qs) (fs ++ gs)
  Made-append [] qs [] gs h k = k
  Made-append [] qs (f ∷ fs) gs h k = absurd h
  Made-append (p ∷ ps) qs [] gs h k = absurd h
  Made-append ((name, pp) ∷ ps) qs (f ∷ fs) gs (h, hs) k = (h, Made-append ps qs fs gs hs k)

  pub tcp_forwarder_sound :
      (n : Net) (pp : PortPair) (f : Forwarder Net Addr)
      → tcp_forwarder at lookup n pp ≡ inl f
      → (n ≡ f.net)
        × (f.dst ≡ get_dst pp)
        × (at.parse_network_address (addr_text at lookup pp) ≡ inl f.addr)
  unfolding tcp_forwarder
  tcp_forwarder_sound n pp f h =
      elim (Sum-cases (at.parse_network_address (addr_text at lookup pp))) [
        | inr (e, k) ↦ absurd (inr-ne-inl (rw (k, tcp_forwarder) at h))
        | inl (a, k) ↦
            subst
              (λ g.
                (n ≡ g.net)
                × (g.dst ≡ get_dst pp)
                × (at.parse_network_address (addr_text at lookup pp) ≡ inl g.addr))
              (from_inl (rw (k, tcp_forwarder) at h)) (refl, refl, k)
      ]

  provision_ports-Made :
      (name : Bytes) (n : Net) (pps : List (CaddyTextUnmarshaler PortPair))
      (fs fs' : List (Forwarder Net Addr)) (w w' : Bool)
      → lookup name ≡ some n
      → provision_ports at lookup n pps fs w ≡ (fs', w', none)
      → (made : List (Forwarder Net Addr)) × (fs' ≡ fs ++ made) × Made (tcp_ports name pps) made
  unfolding provision_ports
  provision_ports-Made name n [] fs fs' w w' l h = ([], ground (arith, append-nil fs), tt)
  provision_ports-Made name n (pp ∷ pps) fs fs' w w' l h = elim (Bool-cases (is_udp pp.value)) [
    | inl u ↦ rw u (provision_ports-Made name n pps fs fs' true w' l (rw (u, provision_ports) at h))
    | inr u ↦ elim (Sum-cases (tcp_forwarder at lookup n pp.value)) [
      | inr (e, k) ↦
          let failed : some e ≡ none = ap (λ r. r.2) (rw (u, k, provision_ports) at h) in
          ground arith
      | inl (f, k) ↦
          let (same, dst, addr) = tcp_forwarder_sound n pp.value f k in
          let (made, e, m) =
            provision_ports-Made name n pps (fs ++ f ∷ []) fs' w w' l
              (rw (u, k, provision_ports) at h) in
          rw u (
            f ∷ made,
            e ∙ append_assoc fs (f ∷ []) made,
            (
              (
                l ∙ ap some same,
                dst,
                ap at.parse_network_address (sym (addr_text-source_text pp.value u)) ∙ addr,
              ),
              m,
            ),
          )
    ]
  ]

  provision_forwards-Made :
      (fwds : List Forward) (fs fs' : List (Forwarder Net Addr)) (w w' : Bool)
      → provision_forwards at lookup fwds fs w ≡ (fs', w', none)
      → (made : List (Forwarder Net Addr)) × (fs' ≡ fs ++ made) × Made (tcp_pairs fwds) made
  unfolding provision_forwards
  provision_forwards-Made [] fs fs' w w' h = ([], ground (arith, append-nil fs), tt)
  provision_forwards-Made (fwd ∷ fwds) fs fs' w w' h = elim (Option-cases (lookup fwd.name.value)) [
    | inl k ↦
        let failed : some (errorf "network %q not found" (text fwd.name.value ∷ [])) ≡ none =
          ap (λ r. r.2) (rw (k, provision_forwards) at h) in
        ground arith
    | inr (n, k) ↦
        rest n k (provision_ports at lookup n fwd.ports fs w) refl (rw (k, provision_forwards) at h)
          (λ gs v. provision_forwards-Made fwds gs fs' v w')
  ]
    where
      rest :
          (n : Net)
          → lookup fwd.name.value ≡ some n
          → (r : List (Forwarder Net Addr) × Bool × Option GoError)
          → provision_ports at lookup n fwd.ports fs w ≡ r
          → unless_failed r (provision_forwards at lookup fwds) ≡ (fs', w', none)
          → ((gs : List (Forwarder Net Addr)) (v : Bool)
              → provision_forwards at lookup fwds gs v ≡ (fs', w', none)
              → (made : List (Forwarder Net Addr)) × (fs' ≡ gs ++ made)
                × Made (tcp_pairs fwds) made)
          → (made : List (Forwarder Net Addr)) × (fs' ≡ fs ++ made)
            × Made (tcp_pairs (fwd ∷ fwds)) made
      rest n k (gs, v, some x) e h ih = ground arith
      rest n k (gs, v, none) e h ih =
          let (a, same, m) = provision_ports-Made fwd.name.value n fwd.ports fs gs w v k e in
          let (b, same', m') = ih gs v h in
          (
            a ++ b,
            same' ∙ ap (λ xs. xs ++ b) same ∙ append_assoc fs a b,
            Made-append (tcp_ports fwd.name.value fwd.ports) (tcp_pairs fwds) a b m m',
          )

  -- A `Provision` that succeeds has appended one forwarder for each pair that is not UDP, in the
  -- order of the configuration, and has dropped the configuration. Each forwarder has the network
  -- of its forward's name, the pair's destination port, and the address parsed of the text of its
  -- source: the host, if it has one, a colon and the source port.
  pub provision-Made :
      (p q : Forwards Net Addr) (w w' : Bool)
      → provision at lookup p w ≡ (q, w', none)
      → (made : List (Forwarder Net Addr)) × (q.forwarders ≡ p.forwarders ++ made)
        × Made (tcp_pairs p.forwards) made
        × (q.forwards ≡ [])
        × (q.stop ≡ p.stop)
  unfolding provision
  provision-Made p q w w' h = whole (provision_forwards at lookup p.forwards p.forwarders w) refl h
    where
      whole :
          (r : List (Forwarder Net Addr) × Bool × Option GoError)
          → provision_forwards at lookup p.forwards p.forwarders w ≡ r
          → with_forwarders p r ≡ (q, w', none)
          → (made : List (Forwarder Net Addr)) × (q.forwarders ≡ p.forwarders ++ made)
            × Made (tcp_pairs p.forwards) made
            × (q.forwards ≡ [])
            × (q.stop ≡ p.stop)
      whole (fs, v, some x) e h = ground arith
      whole (fs, v, none) e h =
          let (made, same, m) = provision_forwards-Made p.forwards p.forwarders fs w v e in
          let kept : q ≡ record p { forwarders = fs; forwards = [] } = ap (λ r. r.0) (sym h) in
          (
            made,
            ap (λ r. r.forwarders) kept ∙ same,
            m,
            ap (λ r. r.forwards) kept,
            ap (λ r. r.stop) kept,
          )
