-- ===== src/WebSocket/Sha1.antt =====
-- `sha1Digest` and `websocketAcceptValue` of src/WebSocketsServer.cpp.
use crosspoint_simulator_ios.Base.{
  ℕ, zero, suc, ◌+◌, ◌-◌, ◌*◌, ◌/◌, ◌%◌, ◌^◌, List, [], ◌∷◌, ◌++◌, if◌then◌else◌, ltb, ◌==◌, Bytes,
  length, get_or, drop, bit_and, bit_or, bit_xor,
}
use crosspoint_simulator_ios.Base.Text.{codes}
use crosspoint_simulator_ios.Base.Words.{u32, u64}
use crosspoint_simulator_ios.Base64.{encode}
use crosspoint_simulator_ios.WebSocket.Frame.{big_endian_8}

-- `rol32`
unfoldable pub rol32 : ℕ → ℕ → ℕ
rol32 value shift = bit_or (u32 (value * 2 ^ shift)) (value / 2 ^ (32 - shift))

-- `while ((message.size() % 64) != 56) message.push_back(0);`, at most `fuel` times.
unfoldable pub pad_zeros : ℕ → Bytes → Bytes
pad_zeros zero message = message
pad_zeros (suc fuel) message =
    let more = pad_zeros fuel (message ++ (0 ∷ [])) in
    if length message % 64 == 56 then message else more

-- The message that is digested.
unfoldable pub padded : Bytes → Bytes
padded input = pad_zeros 64 (input ++ (0x80 ∷ [])) ++ big_endian_8 (u64 (length input * 8))

-- The words of a block from word i down, the last first.
unfoldable pub block_words : ℕ → Bytes → List ℕ
block_words zero block = []
block_words (suc i) block =
    (get_or block (i * 4) 0 * 2 ^ 24
      + get_or block (i * 4 + 1) 0 * 2 ^ 16
      + get_or block (i * 4 + 2) 0 * 2 ^ 8
      + get_or block (i * 4 + 3) 0)
    ∷ block_words i block

-- The loop over the words from 16 on: `n` more words in front of those before, the last first.
unfoldable pub extend_words : ℕ → List ℕ → List ℕ
extend_words zero ws = ws
extend_words (suc n) ws =
    let x =
      bit_xor (bit_xor (bit_xor (get_or ws 2 0) (get_or ws 7 0)) (get_or ws 13 0))
        (get_or ws 15 0) in
    extend_words n (rol32 x 1 ∷ ws)

-- The variables of a block, and the digest so far.
pub record Registers : Type 0 where
  pub a : ℕ
  pub b : ℕ
  pub c : ℕ
  pub d : ℕ
  pub e : ℕ

abbrev pub choose : ℕ → ℕ → ℕ → ℕ
choose b c d = bit_or (bit_and b c) (bit_and (2 ^ 32 - 1 - b) d)

abbrev pub majority : ℕ → ℕ → ℕ → ℕ
majority b c d = bit_or (bit_or (bit_and b c) (bit_and b d)) (bit_and c d)

abbrev pub parity : ℕ → ℕ → ℕ → ℕ
parity b c d = bit_xor (bit_xor b c) d

-- Round i with the word `w`.
unfoldable pub sha1_round : ℕ → ℕ → Registers → Registers
sha1_round i w r =
    let f =
      if ltb i 20
      then choose r.b r.c r.d
      else if ltb i 40
      then parity r.b r.c r.d
      else if ltb i 60
      then majority r.b r.c r.d
      else parity r.b r.c r.d in
    let k =
      if ltb i 20
      then 0x5a827999
      else if ltb i 40
      then 0x6ed9eba1
      else if ltb i 60
      then 0x8f1bbcdc
      else 0xca62c1d6 in
    record { a = u32 (rol32 r.a 5 + f + r.e + k + w); b = r.a; c = rol32 r.b 30; d = r.c; e = r.d }

-- The rounds of the words, given the last first; the word in front of i others has number i.
unfoldable pub sha1_rounds : List ℕ → Registers → Registers
sha1_rounds [] r = r
sha1_rounds (w ∷ ws) r = sha1_round (length ws) w (sha1_rounds ws r)

unfoldable pub sha1_block : Bytes → Registers → Registers
sha1_block block h =
    let r = sha1_rounds (extend_words 64 (block_words 16 block)) h in
    record {
      a = u32 (h.a + r.a);
      b = u32 (h.b + r.b);
      c = u32 (h.c + r.c);
      d = u32 (h.d + r.d);
      e = u32 (h.e + r.e);
    }

-- The loop over `n` blocks.
unfoldable pub sha1_blocks : ℕ → Bytes → Registers → Registers
sha1_blocks zero message h = h
sha1_blocks (suc n) message h = sha1_blocks n (drop 64 message) (sha1_block message h)

abbrev pub word_bytes : ℕ → Bytes
word_bytes w = w / 2 ^ 24 % 256 ∷ w / 2 ^ 16 % 256 ∷ w / 2 ^ 8 % 256 ∷ w % 256 ∷ []

abbrev pub initial_registers : Registers
initial_registers = record {
  a = 0x67452301;
  b = 0xefcdab89;
  c = 0x98badcfe;
  d = 0x10325476;
  e = 0xc3d2e1f0;
}

-- `sha1Digest`
unfoldable pub sha1_digest : Bytes → Bytes
sha1_digest input =
    let message = padded input in
    let h = sha1_blocks (length message / 64) message initial_registers in
    word_bytes h.a ++ (word_bytes h.b ++ (word_bytes h.c ++ (word_bytes h.d ++ word_bytes h.e)))

abbrev pub guid : Bytes
guid = codes "258EAFA5-E914-47DA-95CA-C5AB0DC85B11"

-- `websocketAcceptValue`; `base64Encode` of the file computes what `base64::encode` does.
unfoldable pub websocket_accept_value : Bytes → Bytes
websocket_accept_value key = encode (sha1_digest (key ++ guid))
