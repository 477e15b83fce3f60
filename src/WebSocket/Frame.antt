-- ===== src/WebSocket/Frame.antt =====
-- `WebSocketFrame` of include/http_structs.hpp.
use gouda_http_server.Common.{ℕ, ◌<◌, Bool, Option}
use gouda_http_server.Common.Bytes.{Bytes}

-- `std::array<uint8_t, 4>`.
pub record MaskingKey : Type 0 where
  pub k0 : ℕ
  pub k1 : ℕ
  pub k2 : ℕ
  pub k3 : ℕ

pub record WebSocketFrame : Type 0 where
  pub fin : Bool
  pub rsv1 : Bool
  pub rsv2 : Bool
  pub rsv3 : Bool
  pub opcode : ℕ
  pub mask : Bool
  pub payload_length : ℕ
  pub masking_key : Option MaskingKey
  pub payload : Bytes

pub record IsKey (k : MaskingKey) : Type 0 where
  pub b0 : k.k0 < 256
  pub b1 : k.k1 < 256
  pub b2 : k.k2 < 256
  pub b3 : k.k3 < 256
