-- ===== src/Wg.antt =====
-- pkg/wg: how a WireGuard interface is put together from options, brought up, and closed.
pub mod Options
pub mod Connection
pub mod Netstack
