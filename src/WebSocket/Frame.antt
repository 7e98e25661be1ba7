-- ===== src/WebSocket/Frame.antt =====
-- The frames that src/WebSocketsServer.cpp sends and reads.
use crosspoint_simulator_ios.Base.{
  ℕ, ◌+◌, ◌*◌, ◌/◌, ◌%◌, ◌^◌, Bool, [], ◌∷◌, ◌++◌, Option, none, some, if◌then◌else◌, leb, ltb,
  ◌==◌, Bytes, length, get_or, bit_xor,
}
use crosspoint_simulator_ios.Base.Words.{u64}
use crosspoint_simulator_ios.WebSocket.Socket.{Reader, ◌>>=◌, pure, fail, recv_all}

abbrev pub max_ws_payload : ℕ
max_ws_payload = 256 * 1024 * 1024

-- The two low bytes of `n`, and all eight, the high byte first.
abbrev pub big_endian_2 : ℕ → Bytes
big_endian_2 n = n / 256 % 256 ∷ n % 256 ∷ []

abbrev pub big_endian_8 : ℕ → Bytes
big_endian_8 n =
    n / 2 ^ 56 % 256
    ∷ n / 2 ^ 48 % 256
    ∷ n / 2 ^ 40 % 256
    ∷ n / 2 ^ 32 % 256
    ∷ n / 2 ^ 24 % 256
    ∷ n / 2 ^ 16 % 256
    ∷ n / 2 ^ 8 % 256
    ∷ n % 256
    ∷ []

-- `sendWsTextFrame`: the bytes that it hands to `sendAll`.
unfoldable pub text_frame : Bytes → Bytes
text_frame message =
    let size = length message in
    let head =
      if ltb size 126
      then size ∷ []
      else if leb size 0xffff
      then 126 ∷ big_endian_2 size
      else 127 ∷ big_endian_8 size in
    0x81 ∷ (head ++ message)

-- `sendWsPongFrame`: `none` where it refuses.
unfoldable pub pong_frame : Bytes → Option Bytes
pong_frame payload =
    if ltb (length payload) 126 then some (0x8a ∷ length payload ∷ payload) else none

-- `WsFrame`
pub record WsFrame : Type 0 where
  pub opcode : ℕ
  pub payload : Bytes

-- `len = (len << 8) | b` over the extended length.
unfoldable pub fold_length : ℕ → Bytes → ℕ
fold_length len [] = len
fold_length len (b ∷ bs) = fold_length (u64 (len * 256 + b)) bs

-- The length field, from its 7 bits.
unfoldable pub read_length : ℕ → Reader ℕ
read_length len =
    if len == 126
    then (do ext ← recv_all 2; pure (fold_length 0 ext))
    else if len == 127
    then (do ext ← recv_all 8; pure (fold_length 0 ext))
    else pure len

-- `frame.payload[i] ^= mask[i % 4]` from index i on.
unfoldable pub unmask : Bytes → ℕ → Bytes → Bytes
unmask mask i [] = []
unmask mask i (b ∷ bs) = bit_xor b (get_or mask (i % 4) 0) ∷ unmask mask (i + 1) bs

-- The mask and the payload of `len` bytes.
unfoldable pub read_payload : Bool → ℕ → Reader Bytes
read_payload masked len =
    if leb len max_ws_payload
    then (do
      mask ← (if masked then recv_all 4 else pure (0 ∷ 0 ∷ 0 ∷ 0 ∷ []))
      bytes ← recv_all len
      pure (if masked then unmask mask 0 bytes else bytes))
    else fail

-- `readWsFrame`
unfoldable pub read_ws_frame : Reader WsFrame
read_ws_frame = do
  header ← recv_all 2
  len ← read_length (get_or header 1 0 % 128)
  payload ← read_payload (get_or header 1 0 / 128 % 2 == 1) len
  pure (record { opcode = get_or header 0 0 % 16; payload = payload })
