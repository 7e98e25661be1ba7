-- ===== src/Base64.antt =====
-- src/base64.h and src/mbedtls/base64.h: base64. Where the sources join bits by `|`, no bit is set on both
-- sides, so the model adds.
pub mod RoundTrip
use crosspoint_simulator_ios.Base.{
  ℕ, ◌+◌, ◌-◌, ◌*◌, ◌/◌, ◌%◌, ◌^◌, Bool, true, false, not, ◌&&◌, ◌||◌, List, [], ◌∷◌, ◌++◌, Option,
  none, some, if◌then◌else◌, ltb, leb, ◌==◌, Bytes, length, get_or, replicate,
}
use crosspoint_simulator_ios.Base.Text.{codes}
use crosspoint_simulator_ios.Base.Words.{u8, u64}

abbrev alphabet_bytes : Bytes
alphabet_bytes = codes "ABCDEFGHIJKLMNOPQRSTUVWXYZabcdefghijklmnopqrstuvwxyz0123456789+/"

-- `kAlphabet`
unfoldable pub alphabet : ℕ → ℕ
alphabet n = get_or alphabet_bytes n 0

abbrev pub pad_char : ℕ
pad_char = 61

-- The four characters for `b`, of which those of absent bytes are '='.
unfoldable pub encode_group : ℕ → Bool → Bool → Bytes
encode_group b second third =
    alphabet (b / 2 ^ 18 % 64)
    ∷ alphabet (b / 2 ^ 12 % 64)
    ∷ (if second then alphabet (b / 2 ^ 6 % 64) else pad_char)
    ∷ (if third then alphabet (b % 64) else pad_char)
    ∷ []

-- `base64::encode`
unfoldable pub encode : Bytes → Bytes
encode [] = []
encode (x ∷ []) = encode_group (x * 2 ^ 16) false false
encode (x ∷ y ∷ []) = encode_group (x * 2 ^ 16 + y * 2 ^ 8) true false
encode (x ∷ y ∷ z ∷ rest) = encode_group (x * 2 ^ 16 + y * 2 ^ 8 + z) true true ++ encode rest

-- The table `dec`, an entry below zero as the `unsigned char` it is cast to.
unfoldable pub dec : ℕ → ℕ
dec c =
    if leb 65 c && leb c 90
    then c - 65
    else if leb 97 c && leb c 122
    then c - 71
    else if leb 48 c && leb c 57
    then c + 4
    else if c == 43
    then 62
    else if c == 47
    then 63
    else if c == 61
    then 254
    else 255

-- `(signed char)c < 0`
abbrev pub negative : ℕ → Bool
negative c = leb 128 c

-- The number of '=' at the end.
unfoldable pub padding : Bytes → ℕ
padding [] = 0
padding (c ∷ cs) =
    let rest = padding cs in if (c == pad_char) && (rest == length cs) then rest + 1 else rest

-- `outLen`, in `size_t`.
unfoldable pub out_len : Bytes → ℕ
out_len src = u64 (length src / 4 * 3 + 2 ^ 64 - padding src)

-- What a round of the loop writes; `none` is an invalid character.
unfoldable pub decode_group : ℕ → ℕ → ℕ → ℕ → Option Bytes
decode_group s0 s1 s2 s3 =
    let c0 = dec s0 in
    let c1 = dec s1 in
    let c2 = dec s2 in
    let c3 = dec s3 in
    let first = u8 (c0 * 4 + c1 / 16) in
    let second = u8 (c1 * 16 + c2 / 4) in
    let third = u8 (c2 * 64 + c3) in
    if negative c0
      || negative c1
      || (not (s2 == pad_char) && negative c2)
      || (not (s3 == pad_char) && negative c3)
    then none
    else some (
        first
        ∷ ((if s2 == pad_char then [] else second ∷ [])
            ++ (if s3 == pad_char then [] else third ∷ [])))

abbrev pub append_group : Option Bytes → Option Bytes → Option Bytes
append_group none rest = none
append_group (some g) none = none
append_group (some g) (some bs) = some (g ++ bs)

-- The loop; fewer than four characters at the end are left.
unfoldable pub decode_groups : Bytes → Option Bytes
decode_groups (s0 ∷ s1 ∷ s2 ∷ s3 ∷ rest) =
    append_group (decode_group s0 s1 s2 s3) (decode_groups rest)
decode_groups _ = some []

-- The return values: the buffer is too small, with the size that is needed; an invalid character; 0,
-- with the bytes written.
pub data Decoded : Type 0 where
  too_small : ℕ → Decoded
  invalid_character : Decoded
  ok : Bytes → Decoded

abbrev pub of_groups : Option Bytes → Decoded
of_groups none = Decoded.invalid_character
of_groups (some bs) = Decoded.ok bs

-- `mbedtls_base64_decode` into a buffer of `dlen` bytes; `none` is a null buffer.
unfoldable pub decode : Option ℕ → Bytes → Decoded
decode none src = Decoded.too_small (out_len src)
decode (some dlen) src =
    if ltb dlen (out_len src)
    then Decoded.too_small (out_len src)
    else of_groups (decode_groups src)
