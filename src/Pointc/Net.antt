-- ===== src/Pointc/Net.antt =====
-- point-c.go, `Net` and `Dialer`: what a network offers to the modules that listen and dial on it.
-- The requests are those of the network stack behind it.
use point_c.Base.{ℕ, Bytes}
use point_c.Wg.Netstack.Dial.{SockAddr}

module _ (Request : Type 0) where
  -- `Dialer`: `Dial`, `DialPacket`.
  pub record NetDialer : Type 0 where
    pub dial : SockAddr → Request
    pub dial_packet : SockAddr → Request

  -- `Net`: `Listen`, `ListenPacket`, `Dialer`, `LocalAddr`.
  pub record Net : Type 0 where
    pub listen : SockAddr → Request
    pub listen_packet : SockAddr → Request
    pub dialer : Bytes → ℕ → NetDialer
    pub local_addr : Bytes
