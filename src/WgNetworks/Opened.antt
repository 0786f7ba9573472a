-- ===== src/WgNetworks/Opened.antt =====
-- What a provisioned client holds open, and what its `Cleanup` closes.
use point_c.Base.{ℕ, ◌≡◌, refl, ap, some, [], ◌∷◌, GoError, inl}
use point_c.Wgapi.Addr.{AddrText}
use point_c.Wg.Options.{apply, zero_options, close_netstack, close_bind, close_device, device_down}
use point_c.Wg.Connection.{Wireguard, Env, close_wireguard}
use point_c.Wg.Connection.Closing.{close_wireguard-new_wireguard, new_wireguard_failed}
use point_c.Wgconfig.{client_config}
use point_c.WgNetworks.{provision_options, cleanup, nil_pointer}
use point_c.WgNetworks.Client.{ClientNet, client_of, provision}

-- When `NewDefaultNetstack` succeeds and the interface comes up, its `Close` brings the device down
-- and closes it, the bind that `New` made, and the netstack, in this order.
pub close_wireguard-provision :
    (net : AddrText) (env : Env) (logger n : ℕ) (c : ClientNet) (w : Wireguard)
    → (provision net env logger (inl n) c).0.wg ≡ some w
    → (let (w', calls, e) = close_wireguard env.run w in
        calls ≡ device_down ∷ close_device ∷ close_bind env.default_bind ∷ close_netstack n ∷ [])
unfolding provision apply
close_wireguard-provision net env logger n c w h =
    let opts = provision_options (client_config net (client_of c.json)) logger (inl n) in
    let (calls, again, same) =
      close_wireguard-new_wireguard env opts (apply opts zero_options []).0 ((0, n) ∷ []) w refl
        h in
    calls

-- A `Provision` that fails leaves no interface, and `Cleanup` then dereferences a nil pointer.
pub cleanup-provision_client :
    (net : AddrText) (env : Env) (logger n : ℕ) (c : ClientNet) (x : GoError)
    → (provision net env logger (inl n) c).1 ≡ some x
    → cleanup env (provision net env logger (inl n) c).0.wg ≡ nil_pointer
unfolding provision cleanup
cleanup-provision_client net env logger n c x h = ap (cleanup env) (
    new_wireguard_failed env
      (provision_options (client_config net (client_of c.json)) logger (inl n)) x h)
