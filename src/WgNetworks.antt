-- ===== src/WgNetworks.antt =====
-- module/networks/wg: the networks of a WireGuard server and of a client, for the Pointc app.
pub mod Server
pub mod Client
pub mod Opened
pub mod Nets
pub mod Keys
use point_c.Base.{ℕ, List, Option, none, some, ◌∷◌, [], Bytes, GoError, ◌⊎◌}
use point_c.Wg.Options.{OptionFn, Pointers, option_config, option_logger, option_net_device}
use point_c.Wg.Connection.{Wireguard, close_wireguard, Env}

-- The options of both `Provision`s, with the configuration's text, the number of the logger that
-- writes to `c.logger`, and the result of `NewDefaultNetstack`; `&c.net` is the pointer 0.
abbrev pub provision_options : Bytes → ℕ → ℕ ⊎ GoError → List OptionFn
provision_options text logger made =
    option_config (some text) ∷ option_logger (some logger) ∷ option_net_device made (some 0) ∷ []

-- The value of `c.net` when the pointers have been assigned.
abbrev pub assigned : Pointers → Option ℕ
assigned [] = none
assigned ((p, n) ∷ ps) = some n

-- What `Cleanup` does: the calls of `Close` and its error, or a panic, where there is no interface.
pub data Cleaned : Type 0 where
  cleaned : Option GoError → Cleaned
  nil_pointer : Cleaned

-- `Cleanup`: `c.wg.Close()`.
unfoldable pub cleanup : Env → Option Wireguard → Cleaned
cleanup env none = nil_pointer
cleanup env (some w) = let (w', calls, e) = close_wireguard env.run w in cleaned e
