-- ===== src/Wgapi.antt =====
-- pkg/wg/wgapi: the key=value text that configures the userspace WireGuard module.
pub mod Key
pub mod Addr
pub mod Value
pub mod Api
pub mod Scanner
pub mod Parser
pub mod Typing
pub mod Ipc
pub mod Get
pub mod Faults
pub mod KeyText
