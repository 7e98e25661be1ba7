-- ===== src/WebSocket/Accept.antt =====
-- The shape of the digest and of the accept value in src/WebSocketsServer.cpp.
use crosspoint_simulator_ios.Base.{
  ℕ, zero, suc, ◌-◌, ◌%◌, ◌/◌, ◌≤◌, ◌<◌, ◌≡◌, refl, [], ◌∷◌, ◌++◌, arith, ◌==◌, Bytes, length,
  length-append, All, Bool-cases, inl, inr,
}
use crosspoint_simulator_ios.WebSocket.Sha1.{
  pad_zeros, padded, sha1_blocks, word_bytes, initial_registers, sha1_digest,
}

-- As many rounds as it takes to reach the remainder 56.
pad_zeros-length :
    (fuel : ℕ) (m : Bytes) → (120 - length m % 64) % 64 ≤ fuel → length (pad_zeros fuel m) % 64 ≡ 56
unfolding pad_zeros
pad_zeros-length zero m h = omega arith
pad_zeros-length (suc fuel) m h = elim (Bool-cases (length m % 64 == 56)) [
  | inl there ↦ rw there (ground (arith, there))
  | inr more ↦
      let l = length-append m (0 ∷ []) in
      let near : (120 - length (m ++ (0 ∷ [])) % 64) % 64 ≤ fuel = ground (arith, l, h, more) in
      rw more (pad_zeros-length fuel (m ++ (0 ∷ [])) near)
]

-- The loop that pads a message ends in time: the padded message of `sha1Digest` is a whole number of
-- blocks of 64 bytes, for every input.
pub padded-length : (input : Bytes) → length (padded input) % 64 ≡ 0
unfolding padded
padded-length input =
    let z = pad_zeros 64 (input ++ (0x80 ∷ [])) in
    omega (arith, length-append z _, pad_zeros-length 64 (input ++ (0x80 ∷ [])) (omega arith))

word_bytes-All :
    (w : ℕ) (rest : Bytes) → All (λ b. b < 256) rest → All (λ b. b < 256) (word_bytes w ++ rest)
word_bytes-All w rest h = (omega arith, (omega arith, (omega arith, (omega arith, h))))

digest-All : (k : Bytes) → All (λ b. b < 256) (sha1_digest k) × (length (sha1_digest k) ≡ 20)
unfolding sha1_digest
digest-All k =
    let h = sha1_blocks (length (padded k) / 64) (padded k) initial_registers in
    let e = word_bytes h.e in
    let d = word_bytes h.d ++ e in
    let c = word_bytes h.c ++ d in
    let b = word_bytes h.b ++ c in
    (
      word_bytes-All h.a b (
          word_bytes-All h.b c
            (word_bytes-All h.c d (word_bytes-All h.d e (word_bytes-All h.e [] tt)))),
      refl,
    )
