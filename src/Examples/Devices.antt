-- ===== src/Examples/Devices.antt =====
-- pkg/wg at concrete inputs.
use mathlib.Core.List.{reverse}
use point_c.Base.{
  List, ℕ, ◌+◌, ◌≤◌, ◌≡◌, refl, [], ◌∷◌, ◌++◌, Bytes, ok, some, none, arith, List, new, inl, length,
  take, ◌⊎◌,
}
use point_c.Wg.Options.{
  Options, OptionFn, device, given, option_device, option_closer, option_net_device, option_err,
  apply, zero_options, close_bind, close_device, device_down,
}
use point_c.Wg.Connection.{Env, Wireguard, new_wireguard, close_wireguard}
use point_c.Wg.Connection.Closing
use point_c.Wg.Connection.Closing.{IsAccounted, acquired}
use point_c.Wg.Netstack.{Injected, packet, read, write}
use point_c.Wg.Netstack.Packets
use point_c.Wg.Netstack.Packets.{HasVersion}

abbrev env : Env
env = record {
  default_bind = 7;
  ipc_set = λ cfg. none;
  up = none;
  run = λ c. some (new "close failed");
}

abbrev options : List OptionFn
options = option_device (some (device 1)) ∷ option_closer 5 ∷ []

abbrev applied : Options
applied = record {
  tun = some (device 1);
  bind = none;
  loggers = [];
  cfg = none;
  closer = given 5 ∷ [];
}

abbrev made : Wireguard
made = record {
  tun = device 1;
  bind = 7;
  loggers = [];
  close = none;
  closers = given 5 ∷ close_bind 7 ∷ close_device ∷ device_down ∷ [];
}

apply_run : apply options zero_options [] ≡ (applied, [], none)
unfolding apply
apply_run = refl

made_run : (new_wireguard env options).wireguard ≡ some made
unfolding new_wireguard apply
made_run = refl

new_wireguard-IsAccounted_example :
    IsAccounted
      (acquired env applied ++ device_down ∷ [])
      (acquired env applied)
      (new_wireguard env options)
new_wireguard-IsAccounted_example =
    Closing.new_wireguard-IsAccounted env options applied [] apply_run

close_wireguard-new_wireguard_example :
    (let (w', calls, e) = close_wireguard env.run made in
      let (w'', again, e') = close_wireguard env.run w' in
      (calls ≡ device_down ∷ reverse (acquired env applied)) × (again ≡ []) × (e' ≡ e))
close_wireguard-new_wireguard_example =
    Closing.close_wireguard-new_wireguard env options applied [] made apply_run made_run

new_wireguard-option_err_example :
    (let r =
        new_wireguard env
          (options ++ option_net_device (inl 3) (some 0) ∷ option_err (new "bad") ∷ []) in
      (r.wireguard ≡ none)
      × (r.error ≡ some (new "bad"))
      × (r.called ≡ [])
      × (r.pointers ≡ (0, 3) ∷ []))
new_wireguard-option_err_example =
    Closing.new_wireguard-option_err env options [] applied [] 3 0 (new "bad") apply_run

abbrev buffer : Bytes
buffer = 0 ∷ 0 ∷ 0 ∷ 0 ∷ []

abbrev small : Bytes
small = 69 ∷ 1 ∷ 2 ∷ []

write-read_example :
    (buf' : Bytes) × (n : ℕ) × (read (packet small) (buffer ∷ []) (0 ∷ []) 1
      ≡ ok (buf' ∷ [], n ∷ []))
    × (n ≤ length small)
    × ((n ≡ length small) ⊎ (1 + n ≡ length buffer))
    × (length buf' ≡ length buffer)
    × ((injected : List Injected) × (write (take (1 + n) buf' ∷ []) 1 ≡ ok (injected, 1))
        × Packets.Injects (take n small) injected)
write-read_example = Packets.write-read 1 buffer [] 0 [] small (omega arith)
