-- ===== src/Web/Quoting.antt =====
-- A text that src/CrossPointWebServer.cpp has escaped cannot end the place that it is written into.
use crosspoint_simulator_ios.Base.{
  ℕ, ◌≡◌, refl, ◌∙◌, Bool, true, false, not, ◌||◌, [], ◌∷◌, ◌++◌, Option, none, some, if◌then◌else◌,
  ltb, ◌==◌, Bytes, All, arith, if_both, if_guarded, ◌/◌, ◌%◌, ◌<◌, append_assoc, Bool-cases, inl,
  inr,
}
use crosspoint_simulator_ios.Web.Path.{empty}
use crosspoint_simulator_ios.Web.Escape.{
  hex_lower, json_char, json_escape, header_safe_chars, header_safe_filename,
}

-- The rest of a text behind the quotation mark that ends a JSON string, by RFC 8259: a backslash
-- takes the next character with it, and a control character is an error.
abbrev pub behind_string : Bytes → Option Bytes
behind_string [] = none
behind_string (c ∷ []) = if c == 34 then some [] else none
behind_string (c ∷ d ∷ cs) =
    let next = behind_string (d ∷ cs) in
    let skipped = behind_string cs in
    if c == 34 then some (d ∷ cs) else if c == 92 then skipped else if ltb c 32 then none else next

-- A character that needs no escape.
behind_plain :
    (c d : ℕ) (rest : Bytes)
    → (c == 34) ≡ false
    → (c == 92) ≡ false
    → ltb c 32 ≡ false
    → behind_string (c ∷ d ∷ rest) ≡ behind_string (d ∷ rest)
behind_plain c d rest q b k = rw (q, b, k) refl

behind_hex :
    (x d : ℕ) (rest : Bytes)
    → x < 16
    → behind_string (hex_lower x ∷ d ∷ rest) ≡ behind_string (d ∷ rest)
behind_hex x d rest h =
    behind_plain (hex_lower x) d rest (ground arith) (ground arith) (ground arith)

behind_char :
    (c : ℕ) (rest : Bytes)
    → empty rest ≡ false
    → behind_string (json_char c ++ rest) ≡ behind_string rest
unfolding json_char
behind_char c [] h = absurd (ground (arith, h))
behind_char c (d ∷ rest) h =
    let P : Bytes → Type 0 = λ bs. behind_string (bs ++ (d ∷ rest)) ≡ behind_string (d ∷ rest) in
    if_guarded P (c == 92) refl (λ back. if_guarded P (c == 34) refl (λ quote.
      if_both P (c == 10) refl (
        if_both P (c == 13) refl (
          if_both P (c == 9) refl (elim (Bool-cases (ltb c 32)) [
            | inl low ↦ rw low (
                behind_hex (c / 16) (hex_lower (c % 16)) (d ∷ rest) (ground (arith, low))
                ∙ behind_hex (c % 16) d rest (omega arith))
            | inr high ↦ rw high (behind_plain c d rest quote back high)
          ])))))

nonempty-json : (cs rest : Bytes) → empty (json_escape cs ++ (34 ∷ rest)) ≡ false
unfolding json_escape json_char
nonempty-json [] rest = refl
nonempty-json (c ∷ cs) rest = ground arith

-- A reader of JSON that stands behind an opening quotation mark, before an escaped text and a closing
-- mark, finds the string's end exactly at that mark, whatever the text and whatever follows.
pub behind_string-json_escape :
    (cs rest : Bytes) → behind_string (json_escape cs ++ (34 ∷ rest)) ≡ some rest
unfolding json_escape
behind_string-json_escape [] [] = refl
behind_string-json_escape [] (c ∷ rest) = refl
behind_string-json_escape (c ∷ cs) rest =
    rw (append_assoc (json_char c) (json_escape cs) (34 ∷ rest)) (
      behind_char c (json_escape cs ++ (34 ∷ rest)) (nonempty-json cs rest)
      ∙ behind_string-json_escape cs rest)

-- A character that a quoted header value can hold as it is.
abbrev pub header_char : ℕ → Bool
header_char c = not ((c == 13) || (c == 10) || (c == 34) || (c == 92))

header_safe-All : (cs : Bytes) → All (λ c. header_char c ≡ true) (header_safe_chars cs)
unfolding header_safe_chars
header_safe-All [] = tt
header_safe-All (c ∷ cs) =
    let h = header_safe-All cs in
    let P = All (λ x. header_char x ≡ true) in
    elim (Bool-cases ((c == 13) || (c == 10))) [
      | inl skip ↦ rw skip h
      | inr keep ↦ elim (Bool-cases ((c == 34) || (c == 92))) [
        | inl mark ↦ rw (keep, mark) (refl, h)
        | inr other ↦ rw (keep, other) (ground (arith, keep, other), h)
      ]
    ]

-- The name in a Content-Disposition header is not empty and has no line break, quotation mark or
-- backslash, whatever the file is called.
pub header_safe_filename-All :
    (name : Bytes)
    → All (λ c. header_char c ≡ true) (header_safe_filename name)
      × (empty (header_safe_filename name) ≡ false)
unfolding header_safe_filename
header_safe_filename-All name = elim (Bool-cases (empty (header_safe_chars name))) [
  | inl none' ↦ rw none' ((refl, (refl, (refl, (refl, (refl, (refl, (refl, (refl, tt)))))))), refl)
  | inr some' ↦ rw some' (header_safe-All name, some')
]
