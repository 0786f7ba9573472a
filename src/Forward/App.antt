-- ===== src/Forward/App.antt =====
-- forward.go, `Forwards`: the app's configuration, its forwarders, and their start and stop.
pub mod Stopping
pub mod Provisioning
pub mod Reading
use mathlib.Core.List.{reverse}
use point_c.Base.{
  ℕ, ◌+◌, ◌≡◌, refl, Bool, true, false, Option, none, some, List, [], ◌∷◌, ◌++◌, Bytes, codes,
  GoError, errorf, text, join, ◌⊎◌, inl, inr, if◌then◌else◌,
}
use point_c.Strconv.{format_uint}
use point_c.Caddyfile.{Line, Directive, Tokens}
use point_c.Configvalues.Unmarshaler.{CaddyTextUnmarshaler}
use point_c.Forward.PortPair.{PortPair, get_src, get_dst, is_udp, get_host}

-- `Forward`.
pub record Forward : Type 0 where
  pub name : CaddyTextUnmarshaler Bytes
  pub ports : List (CaddyTextUnmarshaler PortPair)

-- A function in `Forwards.stop`: the `Close` of a listener, or the cancellation of its context.
pub data StopFn : Type 0 where
  close_listener : ℕ → StopFn
  cancel_context : ℕ → StopFn

module _ (Net Addr : Type 0) where
  -- `Forwarder`; its context is the app's.
  pub record Forwarder : Type 0 where
    pub net : Net
    pub dst : ℕ
    pub addr : Addr

  -- `Forwards`.
  pub record Forwards : Type 0 where
    pub forwards : List Forward
    pub forwarders : List Forwarder
    pub stop : List StopFn

-- The loop of `stopAll` over the reversed list; the result has the calls in their order.
run_all :
    (StopFn → Option GoError)
    → List StopFn
    → List StopFn
    → Option GoError
    → List StopFn × Option GoError
run_all call [] done e = (done, e)
run_all call (fn ∷ fns) done e = run_all call fns (done ++ fn ∷ []) (join e (call fn))

module _ {Net Addr : Type 0} where
  -- The loop of `Start`. `listen` is `f.Addr.Listen`, whose listener is numbered. The result has
  -- the listeners for which a goroutine was started.
  start_all :
      (Forwarder Net Addr → ℕ ⊎ GoError)
      → List (Forwarder Net Addr)
      → List StopFn
      → List ℕ
      → List StopFn × List ℕ × Option GoError
  start_all listen [] stop running = (stop, running, none)
  start_all listen (f ∷ fs) stop running = elim (listen f) [
    | inr e ↦ (stop, running, some e)
    | inl ln ↦
        start_all listen fs (stop ++ close_listener ln ∷ cancel_context ln ∷ [])
          (running ++ ln ∷ [])
  ]

  -- `Start`.
  unfoldable pub start :
      (Forwarder Net Addr → ℕ ⊎ GoError)
      → Forwards Net Addr
      → Forwards Net Addr × List ℕ × Option GoError
  unfolding start_all
  start listen p =
      let (stop, running, e) = start_all listen p.forwarders p.stop [] in
      (record p { stop = stop }, running, e)

  -- `stopAll`.
  unfoldable pub stop_all :
      (StopFn → Option GoError)
      → Forwards Net Addr
      → Forwards Net Addr × List StopFn × Option GoError
  unfolding run_all
  stop_all call p =
      let (done, e) = run_all call (reverse p.stop) [] none in (record p { stop = [] }, done, e)

  -- `Stop`, `Cleanup`.
  unfoldable pub stop_app :
      (StopFn → Option GoError)
      → Forwards Net Addr
      → Forwards Net Addr × List StopFn × Option GoError
  unfolding stop_all
  stop_app call p = stop_all call p

  unfoldable pub cleanup :
      (StopFn → Option GoError)
      → Forwards Net Addr
      → Forwards Net Addr × List StopFn × Option GoError
  unfolding stop_all
  cleanup call p = stop_all call (record p { forwarders = [] })

-- The functions of other packages that `Provision` calls: `net.IP.String` and
-- `caddy.ParseNetworkAddress`.
pub record AddrTools (Addr : Type 0) : Type 0 where
  pub print_ip : Bytes → Bytes
  pub parse_network_address : Bytes → Addr ⊎ GoError

module _ {Net Addr : Type 0} where
  -- `return err` out of the loops, or the rest of them.
  abbrev pub unless_failed :
      List (Forwarder Net Addr) × Bool × Option GoError
      → (List (Forwarder Net Addr) → Bool → List (Forwarder Net Addr) × Bool × Option GoError)
      → List (Forwarder Net Addr) × Bool × Option GoError
  unless_failed (fs, warned, some e) rest = (fs, warned, some e)
  unless_failed (fs, warned, none) rest = rest fs warned

  -- The end of `Provision`: the configuration is dropped if the loops have not failed.
  abbrev pub with_forwarders :
      Forwards Net Addr
      → List (Forwarder Net Addr) × Bool × Option GoError
      → Forwards Net Addr × Bool × Option GoError
  with_forwarders p (fs, warned, some e) = (record p { forwarders = fs }, warned, some e)
  with_forwarders p (fs, warned, none) = (record p { forwarders = fs; forwards = [] }, warned, none)

module _ {Net Addr : Type 0} (at : AddrTools Addr) (lookup : Bytes → Option Net) where
  host_part : Option Bytes → Bytes
  host_part none = []
  host_part (some h) = at.print_ip h

  -- The address text that `tcpForwarder` builds.
  unfoldable pub addr_text : PortPair → Bytes
  unfolding host_part
  addr_text pp =
      (if is_udp pp then codes "udp/" else [])
      ++ host_part (get_host pp)
      ++ b':' ∷ format_uint (get_src pp)

  -- `tcpForwarder`.
  unfoldable pub tcp_forwarder : Net → PortPair → Forwarder Net Addr ⊎ GoError
  unfolding addr_text
  tcp_forwarder n pp = elim (at.parse_network_address (addr_text pp)) [
    | inl a ↦ inl (record { net = n; dst = get_dst pp; addr = a })
    | inr e ↦ inr e
  ]

  -- The inner loop of `Provision`: the forwarders so far, and whether `udpForwarder` has warned.
  provision_ports :
      Net
      → List (CaddyTextUnmarshaler PortPair)
      → List (Forwarder Net Addr)
      → Bool
      → List (Forwarder Net Addr) × Bool × Option GoError
  provision_ports n [] fs warned = (fs, warned, none)
  provision_ports n (pp ∷ pps) fs warned =
      let skipped = provision_ports n pps fs true in
      let made : List (Forwarder Net Addr) × Bool × Option GoError =
        elim (tcp_forwarder n pp.value) [
          | inr e ↦ (fs, warned, some e)
          | inl f ↦ provision_ports n pps (fs ++ f ∷ []) warned
        ] in
      if is_udp pp.value then skipped else made

  -- The outer loop.
  provision_forwards :
      List Forward
      → List (Forwarder Net Addr)
      → Bool
      → List (Forwarder Net Addr) × Bool × Option GoError
  provision_forwards [] fs warned = (fs, warned, none)
  provision_forwards (fwd ∷ fwds) fs warned = elim (lookup fwd.name.value) [
    | none ↦ (fs, warned, some (errorf "network %q not found" (text fwd.name.value ∷ [])))
    | some n ↦ unless_failed (provision_ports n fwd.ports fs warned) (provision_forwards fwds)
  ]

  -- `Forwards.Provision`, once `ctx.App("point-c")` is found: the app, whether the warning about
  -- UDP has been written by now, and the error.
  unfoldable pub provision : Forwards Net Addr → Bool → Forwards Net Addr × Bool × Option GoError
  unfolding provision_forwards provision_ports tcp_forwarder
  provision p warned = with_forwarders p (provision_forwards p.forwards p.forwarders warned)
