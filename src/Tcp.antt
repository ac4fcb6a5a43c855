-- ===== src/Tcp.antt =====
-- src/c/profile/transport/ip/tcp/tcp_transport.c: messages over a TCP connection. Each is sent as its
-- length in two octets, the least significant one first, and its bytes.
pub mod Send
pub mod Receive
pub mod RoundTrip
mod Tests
use micro_xrce_dds_client.Prelude.{ℕ, Bool, List}
use micro_xrce_dds_client.Prelude.Int.{ℤ}
use micro_xrce_dds_client.Prelude.Memory.{Memory}

-- What src/c/profile/transport/ip/tcp/tcp_transport_posix.c and its like for other systems offer, and
-- the clock. A read returns the bytes and `*errcode`, a write how many bytes it took and `*errcode`.
pub record TcpPlatform (W : Type 0) : Type 0 where
  pub write_data : W → List ℕ → ℕ × ℕ × W
  pub read_data : W → ℕ → ℤ → List ℕ × ℕ × W
  pub disconnect : W → W
  pub uxr_millis : W → ℕ × W

pub data TcpInputBufferState : Type 0 where
  buffer_empty size_incomplete size_read message_incomplete message_available : TcpInputBufferState

-- `uxrTCPInputBuffer`, and the `error_code` of the file. `buffer` is memory of
-- UXR_CONFIG_TCP_TRANSPORT_MTU bytes.
pub record TcpTransport : Type 0 where
  pub buffer : Memory
  pub position : ℕ
  pub state : TcpInputBufferState
  pub msg_size : ℕ
  pub error_code : ℕ
