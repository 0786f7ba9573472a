-- ===== src/Wg/Connection.antt =====
-- pkg/wg/connection.go: `New`, `GetConfig`, `SetConfig` and `Close` of a WireGuard interface.
pub mod Closing
pub mod Concurrent
use point_c.Base.{
  ℕ, Option, none, some, List, [], ◌∷◌, ◌++◌, Bytes, GoError, new, join, ◌⊎◌, inl, inr,
}
use point_c.Wgapi.Addr.{AddrText}
use point_c.Wgapi.Ipc.{Ipc, Returned, returned, value, wg_config}
use point_c.Wg.Options.{
  Device, Closer, close_bind, close_device, device_down, Options, zero_options, Pointers, OptionFn,
  apply, clean_up,
}

-- `Wireguard`: the network device, bind and loggers that its `device.Device` is made of; `close`,
-- with the error that its pointer points to; and the closers.
pub record Wireguard : Type 0 where
  pub tun : Device
  pub bind : ℕ
  pub loggers : List ℕ
  pub close : Option (Option GoError)
  pub closers : List Closer

-- What the code of other packages does: the bind that `DefaultBind` makes, `IpcSetOperation` on a
-- configuration text, `Up`, and each function of `closer`.
pub record Env : Type 0 where
  pub default_bind : ℕ
  pub ipc_set : Bytes → Option GoError
  pub up : Option GoError
  pub run : Closer → Option GoError

-- The outcome of `New`: its two results, the closers that have been called, and the caller's
-- variables.
pub record Outcome : Type 0 where
  pub wireguard : Option Wireguard
  pub error : Option GoError
  pub called : List Closer
  pub pointers : Pointers

-- `SetConfig`, with the text of the configuration.
abbrev pub set_config : Env → Bytes → Option GoError
set_config env cfg = env.ipc_set cfg

-- `GetConfig`: `IpcGetOperation` writes a text into the `IPCGet`, or fails. `none` is no result.
unfoldable pub get_config : AddrText → Bytes ⊎ GoError → Option Returned
get_config net (inr e) = some (returned [] (some e))
get_config net (inl text) = value net text

-- Return this error: the deferred `cleanUp` closes what there is in the options.
abbrev pub fail : Env → Options → Pointers → GoError → Outcome
fail env o ps x =
    let (called, e) = clean_up env.run o.closer (some x) in
    record { wireguard = none; error = e; called = called; pointers = ps }

-- The end of `New`: the interface is brought up.
bring_up : Env → Device → ℕ → Options → Pointers → Outcome
bring_up env d b o ps = elim env.up [
  | some x ↦ fail env o ps x
  | none ↦ record {
    wireguard = some (record {
      tun = d;
      bind = b;
      loggers = o.loggers;
      close = none;
      closers = o.closer ++ device_down ∷ [];
    });
    error = none;
    called = [];
    pointers = ps;
  }
]

-- The part of `New` behind the choice of a bind.
with_bind : Env → Device → ℕ → Options → Pointers → Outcome
unfolding bring_up
with_bind env d b o ps =
    let o' : Options = record o { closer = o.closer ++ close_device ∷ [] } in
    elim o.cfg [
      | none ↦ bring_up env d b o' ps
      | some cfg ↦ elim (set_config env cfg) [
        | some x ↦ fail env o' ps x
        | none ↦ bring_up env d b o' ps
      ]
    ]

-- The part of `New` behind the options.
with_options : Env → Options → Pointers → Outcome
unfolding with_bind
with_options env o ps = elim o.tun [
  | none ↦ fail env o ps (new "no device specified")
  | some d ↦ elim o.bind [
    | some b ↦ with_bind env d b o ps
    | none ↦
        with_bind env d env.default_bind
          (record o {
            bind = some env.default_bind;
            closer = o.closer ++ close_bind env.default_bind ∷ [];
          })
          ps
  ]
]

-- `New` behind `apply`: the clean-up is deferred only when the options have succeeded.
after_options : Env → Options × Pointers × Option GoError → Outcome
unfolding with_options
after_options env (o, ps, some x) = record {
  wireguard = none;
  error = some x;
  called = [];
  pointers = ps;
}
after_options env (o, ps, none) = with_options env o ps

-- `New`.
unfoldable pub new_wireguard : Env → List OptionFn → Outcome
unfolding after_options
new_wireguard env opts = after_options env (apply opts zero_options [])

-- The loop of `Close`, from the last closer to the first: the calls made and the error.
pub close_loop :
    (Closer → Option GoError) → List Closer → Option GoError → List Closer × Option GoError
close_loop run [] e = ([], e)
close_loop run (c ∷ cs) e =
    let (done, e') = close_loop run cs e in (done ++ c ∷ [], join e' (run c))

-- `Close`: the first call wins the exchange of `close`, and closes.
unfoldable pub close_wireguard :
    (Closer → Option GoError) → Wireguard → Wireguard × List Closer × Option GoError
unfolding close_loop
close_wireguard run c = elim c.close [
  | some e ↦ (c, [], e)
  | none ↦
      let (done, e) = close_loop run c.closers none in
      (record c { close = some e; closers = [] }, done, e)
]
