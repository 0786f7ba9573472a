-- ===== src/Wgapi/Ipc/Print.antt =====
-- The text that `WGConfig` writes is one line for each value.
use point_c.Base.{◌≡◌, refl, [], ◌∷◌, ◌++◌, Bytes, append_assoc, append-nil, sym}
use point_c.Wgapi.Addr.{AddrText}
use point_c.Wgapi.Value.{IpcKeyValue, kv_key, kv_string}
use point_c.Wgapi.Ipc.{Ipc, write_all, wg_config}

module _ (net : AddrText) where
  -- `key=value`, without the newline.
  abbrev pub pair_text : IpcKeyValue → Bytes
  pair_text e = kv_key e ++ b'=' ∷ kv_string net e

  -- The lines of a list, each with its newline.
  abbrev pub lines : Ipc → Bytes
  lines [] = []
  lines (e ∷ ir) = pair_text e ++ b'\n' ∷ lines ir

  write_all-lines : (ir : Ipc) (buf : Bytes) → write_all net ir buf ≡ buf ++ lines ir
  unfolding write_all
  write_all-lines [] buf = sym (append-nil buf)
  write_all-lines (e ∷ ir) buf = simp (write_all-lines ir, append_assoc)

  pub wg_config-lines : (ir : Ipc) → wg_config net ir ≡ lines ir
  unfolding wg_config
  wg_config-lines ir = write_all-lines ir []

  lines-append : (a b : Ipc) → lines (a ++ b) ≡ lines a ++ lines b
  lines-append [] b = refl
  lines-append (e ∷ a) b = simp (lines-append a, append_assoc)

  -- The text of two lists one behind the other is that of the joined list.
  pub wg_config-append : (a b : Ipc) → wg_config net (a ++ b) ≡ wg_config net a ++ wg_config net b
  wg_config-append a b =
      rw (wg_config-lines (a ++ b), wg_config-lines a, wg_config-lines b) (lines-append a b)
