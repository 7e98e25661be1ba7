-- ===== src/Web/Decode.antt =====
-- `urlDecode` of src/CrossPointWebServer.cpp.
use crosspoint_simulator_ios.Base.{
  ℕ, ◌+◌, ◌-◌, ◌*◌, ◌%◌, Bool, ◌&&◌, ◌||◌, [], ◌∷◌, Option, none, some, if◌then◌else◌, leb, ◌==◌,
  Bytes,
}

-- The value of a hexadecimal digit.
unfoldable pub hex_digit : ℕ → Option ℕ
hex_digit c =
    if leb 48 c && leb c 57
    then some (c - 48)
    else if leb 65 c && leb c 70
    then some (c - 55)
    else if leb 97 c && leb c 102
    then some (c - 87)
    else none

-- `std::isspace`
abbrev pub is_space : ℕ → Bool
is_space c = (c == 32) || (leb 9 c && leb c 13)

-- What `std::strtol(hex.c_str(), &end, 16)` gives for a text of two characters, cast to a byte, where
-- it stops at the end of the text: at its two digits; at a digit before a zero byte; at the digit behind
-- a space or a sign; and at a zero byte in front, without having read anything.
unfoldable pub parse_hex : ℕ → ℕ → Option ℕ
parse_hex a b = if a == 0 then some 0 else elim (hex_digit a) [
  | some x ↦
      if b == 0 then some x else elim (hex_digit b) [ some y ↦ some (x * 16 + y) | none ↦ none ]
  | none ↦ elim (hex_digit b) [
    | none ↦ none
    | some y ↦
        if is_space a || (a == 43) then some y else if a == 45 then some ((256 - y) % 256) else none
  ]
]

abbrev pub plus_to_space : ℕ → ℕ
plus_to_space c = if c == 43 then 32 else c

-- `urlDecode`
unfoldable pub url_decode : Bytes → Bytes
url_decode [] = []
url_decode (c ∷ []) = plus_to_space c ∷ []
url_decode (c ∷ d ∷ []) = plus_to_space c ∷ plus_to_space d ∷ []
url_decode (c ∷ d ∷ e ∷ cs) =
    let decoded = url_decode cs in
    let kept = url_decode (d ∷ e ∷ cs) in
    if c == 37
    then elim (parse_hex d e) [ none ↦ c ∷ kept | some v ↦ v ∷ decoded ]
    else plus_to_space c ∷ kept
