-- ===== src/Forward.antt =====
-- forward.go: the Caddy app that forwards local ports to a network.
pub mod PortPair
pub mod App
pub mod Handler
