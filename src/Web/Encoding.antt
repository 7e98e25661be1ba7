-- ===== src/Web/Encoding.antt =====
-- Percent encoding, as a browser's `encodeURIComponent` may use it, against `urlDecode` of
-- src/CrossPointWebServer.cpp.
use crosspoint_simulator_ios.Base.{
  ℕ, ◌+◌, ◌/◌, ◌%◌, ◌<◌, ◌≡◌, refl, ◌∙◌, ap, Bool, true, false, [], ◌∷◌, some, arith, if◌then◌else◌,
  ltb, leb, ◌==◌, Bytes, All, Bool-cases, inl, inr, ◌&&◌, ◌||◌,
}
use crosspoint_simulator_ios.Web.Decode.{hex_digit, parse_hex, url_decode}

abbrev pub hex_char : ℕ → ℕ
hex_char d = if ltb d 10 then 48 + d else 55 + d

-- A byte that is not reserved stands for itself; every other byte is written by its two digits.
abbrev pub plain_char : ℕ → Bool
plain_char c = (leb 48 c && leb c 57) || (leb 65 c && leb c 90) || (leb 97 c && leb c 122)

abbrev pub percent_encode : Bytes → Bytes
percent_encode [] = []
percent_encode (b ∷ bs) =
    let rest = percent_encode bs in
    if plain_char b then b ∷ rest else 37 ∷ hex_char (b / 16) ∷ hex_char (b % 16) ∷ rest

hex_digit-hex_char : (d : ℕ) → d < 16 → hex_digit (hex_char d) ≡ some d
unfolding hex_digit
hex_digit-hex_char d h = ground arith

parse_hex-byte : (b : ℕ) → b < 256 → parse_hex (hex_char (b / 16)) (hex_char (b % 16)) ≡ some b
unfolding parse_hex
parse_hex-byte b h =
    let x = hex_digit-hex_char (b / 16) (omega arith) in
    let y = hex_digit-hex_char (b % 16) (omega arith) in
    let high : (hex_char (b / 16) == 0) ≡ false = ground arith in
    let low : (hex_char (b % 16) == 0) ≡ false = ground arith in
    rw (parse_hex, high, x, low, y) (ap some (omega arith))

-- A character that is no percent sign is decoded alone.
decode-plain : (c : ℕ) (cs : Bytes) → plain_char c ≡ true → url_decode (c ∷ cs) ≡ c ∷ url_decode cs
unfolding url_decode
decode-plain c [] h = ground arith
decode-plain c (d ∷ []) h = ground arith
decode-plain c (d ∷ e ∷ cs) h = ground arith

-- What is encoded byte by byte, every byte as itself if it is a letter or a digit and by its two
-- hexadecimal digits if not, is decoded to itself.
pub url_decode-percent_encode :
    (bs : Bytes) → All (λ b. b < 256) bs → url_decode (percent_encode bs) ≡ bs
unfolding url_decode
url_decode-percent_encode [] h = refl
url_decode-percent_encode (b ∷ bs) h =
    let rest = url_decode-percent_encode bs h.1 in
    elim (Bool-cases (plain_char b)) [
      | inl itself ↦ rw itself (decode-plain b (percent_encode bs) itself ∙ ap (◌∷◌ b) rest)
      | inr escaped ↦ rw escaped (rw (url_decode, parse_hex-byte b h.0) (ap (◌∷◌ b) rest))
    ]
