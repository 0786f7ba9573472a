-- ===== src/Configvalues.antt =====
-- pkg/configvalues: text values of a configuration, with Caddy's placeholders replaced.
pub mod Values
pub mod Unmarshaler
pub mod Ports
