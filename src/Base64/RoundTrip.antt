-- ===== src/Base64/RoundTrip.antt =====
-- `mbedtls_base64_decode` reads what `base64::encode` writes.
use crosspoint_simulator_ios.Base.{
  ℕ, zero, suc, ◌+◌, ◌*◌, ◌/◌, ◌%◌, ◌^◌, ◌≤◌, ◌<◌, ◌≡◌, refl, Bool, true, false, not, ◌&&◌, [], ◌∷◌,
  none, some, arith, if◌then◌else◌, ltb, ◌==◌, Bytes, length, All,
}
use crosspoint_simulator_ios.Base64.{
  alphabet, pad_char, encode_group, encode, dec, padding, out_len, decode_group, decode_groups,
  Decoded, decode,
}

-- Whether the characters of the digits below `n` are read as these digits.
reads_below : ℕ → Bool
reads_below zero = true
reads_below (suc n) =
    if (dec (alphabet n) == n) && not (alphabet n == pad_char) then reads_below n else false

reads_below_at :
    (n d : ℕ)
    → reads_below n ≡ true
    → d < n
    → (dec (alphabet d) ≡ d) × ((alphabet d == pad_char) ≡ false)
unfolding reads_below
reads_below_at zero d h k = absurd (omega arith)
reads_below_at (suc n) d h k = ground (arith, reads_below_at n d)

dec-alphabet : (d : ℕ) → d < 64 → (dec (alphabet d) ≡ d) × ((alphabet d == pad_char) ≡ false)
unfolding reads_below dec alphabet
dec-alphabet d h = reads_below_at 64 d refl h

decode_group-three :
    (x y z : ℕ)
    → x < 256
    → y < 256
    → z < 256
    → let b = x * 2 ^ 16 + y * 2 ^ 8 + z in
      decode_group
        (alphabet (b / 2 ^ 18 % 64))
        (alphabet (b / 2 ^ 12 % 64))
        (alphabet (b / 2 ^ 6 % 64))
        (alphabet (b % 64))
      ≡ some (x ∷ y ∷ z ∷ [])
unfolding decode_group
decode_group-three x y z hx hy hz =
    let b = x * 2 ^ 16 + y * 2 ^ 8 + z in
    let a0 = dec-alphabet (b / 2 ^ 18 % 64) (omega arith) in
    let a1 = dec-alphabet (b / 2 ^ 12 % 64) (omega arith) in
    let a2 = dec-alphabet (b / 2 ^ 6 % 64) (omega arith) in
    let a3 = dec-alphabet (b % 64) (omega arith) in ground (arith, a0, a1, a2, a3)

decode_group-two :
    (x y : ℕ)
    → x < 256
    → y < 256
    → let b = x * 2 ^ 16 + y * 2 ^ 8 in
      decode_group
        (alphabet (b / 2 ^ 18 % 64))
        (alphabet (b / 2 ^ 12 % 64))
        (alphabet (b / 2 ^ 6 % 64))
        pad_char
      ≡ some (x ∷ y ∷ [])
unfolding decode_group
decode_group-two x y hx hy =
    let b = x * 2 ^ 16 + y * 2 ^ 8 in
    let a0 = dec-alphabet (b / 2 ^ 18 % 64) (omega arith) in
    let a1 = dec-alphabet (b / 2 ^ 12 % 64) (omega arith) in
    let a2 = dec-alphabet (b / 2 ^ 6 % 64) (omega arith) in ground (arith, a0, a1, a2)

decode_group-one :
    (x : ℕ)
    → x < 256
    → let b = x * 2 ^ 16 in
      decode_group (alphabet (b / 2 ^ 18 % 64)) (alphabet (b / 2 ^ 12 % 64)) pad_char pad_char
      ≡ some (x ∷ [])
unfolding decode_group
decode_group-one x hx =
    let b = x * 2 ^ 16 in
    let a0 = dec-alphabet (b / 2 ^ 18 % 64) (omega arith) in
    let a1 = dec-alphabet (b / 2 ^ 12 % 64) (omega arith) in ground (arith, a0, a1)

decode_groups-encode : (bs : Bytes) → All (λ b. b < 256) bs → decode_groups (encode bs) ≡ some bs
unfolding decode_groups encode encode_group
decode_groups-encode [] h = refl
decode_groups-encode (x ∷ []) h = rw (decode_group-one x h.0) refl
decode_groups-encode (x ∷ y ∷ []) h = rw (decode_group-two x y h.0 h.1.0) refl
decode_groups-encode (x ∷ y ∷ z ∷ rest) h =
    rw (decode_group-three x y z h.0 h.1.0 h.1.1.0, decode_groups-encode rest h.1.1.1) refl

-- The size that the decoder computes for an encoded text, from its length and its padding.
record Sized (bs : Bytes) : Type 0 where
  size : length (encode bs) / 4 * 3 ≡ length bs + padding (encode bs)
  short : padding (encode bs) ≤ 2
  groups : length (encode bs) % 4 ≡ 0

padding_le : (cs : Bytes) → padding cs ≤ length cs
unfolding padding
padding_le [] = omega arith
padding_le (c ∷ cs) = ground (arith, padding_le cs)

-- A character that is not '=', behind others, ends no padding in front of it.
padding-skip : (c : ℕ) (cs : Bytes) → padding cs < length cs → padding (c ∷ cs) ≡ padding cs
unfolding padding
padding-skip c cs h = ground arith

padding-stop : (c : ℕ) (cs : Bytes) → (c == pad_char) ≡ false → padding (c ∷ cs) ≡ padding cs
unfolding padding
padding-stop c cs h = ground arith

padding-group :
    (a b c d : ℕ) (cs : Bytes) → (d == pad_char) ≡ false → padding (a ∷ b ∷ c ∷ d ∷ cs) ≡ padding cs
padding-group a b c d cs h =
    let le = padding_le cs in
    let e = padding-stop d cs h in
    let f = padding-skip c (d ∷ cs) (omega (arith, e, le)) in
    let g = padding-skip b (c ∷ d ∷ cs) (omega (arith, e, f, le)) in
    omega (arith, e, f, g, padding-skip a (b ∷ c ∷ d ∷ cs) (omega (arith, e, f, g, le)))

encode-Sized : (bs : Bytes) → Sized bs
unfolding encode encode_group padding
encode-Sized [] = record { size = refl; short = omega arith; groups = refl }
encode-Sized (x ∷ []) =
    let b = x * 2 ^ 16 in
    let a1 = dec-alphabet (b / 2 ^ 12 % 64) (omega arith) in
    record { size = ground (arith, a1); short = ground (arith, a1); groups = refl }
encode-Sized (x ∷ y ∷ []) =
    let b = x * 2 ^ 16 + y * 2 ^ 8 in
    let a2 = dec-alphabet (b / 2 ^ 6 % 64) (omega arith) in
    record { size = ground (arith, a2); short = ground (arith, a2); groups = refl }
encode-Sized (x ∷ y ∷ z ∷ rest) =
    let b = x * 2 ^ 16 + y * 2 ^ 8 + z in
    let a3 = dec-alphabet (b % 64) (omega arith) in
    let s = encode-Sized rest in
    let p =
      padding-group (alphabet (b / 2 ^ 18 % 64)) (alphabet (b / 2 ^ 12 % 64))
        (alphabet (b / 2 ^ 6 % 64)) (alphabet (b % 64)) (encode rest) a3.1 in
    record {
      size = omega (arith, p, s.size, s.groups);
      short = omega (arith, p, s.short);
      groups = omega (arith, s.groups);
    }

-- Without a buffer the decoder asks for exactly the length of the text that was encoded, and into any
-- buffer of at least that length it decodes to that text.
pub decode-encode :
    (bs : Bytes) (dlen : ℕ)
    → All (λ b. b < 256) bs
    → length bs ≤ dlen
    → length bs < 2 ^ 64
    → (decode none (encode bs) ≡ Decoded.too_small (length bs))
      × (decode (some dlen) (encode bs) ≡ Decoded.ok bs)
unfolding decode out_len
decode-encode bs dlen h fits small =
    let s = encode-Sized bs in
    let n : out_len (encode bs) ≡ length bs = omega (arith, s.size) in
    let room : ltb dlen (length bs) ≡ false = ground arith in
    (rw n refl, rw (n, room, decode_groups-encode bs h) refl)
