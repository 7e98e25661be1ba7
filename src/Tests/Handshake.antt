-- ===== src/Tests/Handshake.antt =====
-- The handshake of the WebSocket server on the example of RFC 6455.
use crosspoint_simulator_ios.Base.{◌%◌, ◌≡◌, refl, Bytes, length}
use crosspoint_simulator_ios.Base.Text.{codes}
use crosspoint_simulator_ios.Base64.{alphabet, encode_group, encode}
use crosspoint_simulator_ios.WebSocket.Sha1.{
  rol32, pad_zeros, padded, block_words, extend_words, sha1_round, sha1_rounds, sha1_block,
  sha1_blocks, sha1_digest, websocket_accept_value,
}
use crosspoint_simulator_ios.WebSocket.Accept.{padded-length}

abbrev sample_key : Bytes
sample_key = codes "dGhlIHNhbXBsZSBub25jZQ=="

sample_accept : websocket_accept_value sample_key ≡ codes "s3pPLMBiTxaQ9kYGzzhZRbK+xOo="
unfolding rol32 pad_zeros padded block_words extend_words sha1_round sha1_rounds sha1_block
    sha1_blocks sha1_digest websocket_accept_value alphabet encode_group encode
sample_accept = refl

padded-length_example : length (padded sample_key) % 64 ≡ 0
padded-length_example = padded-length sample_key
