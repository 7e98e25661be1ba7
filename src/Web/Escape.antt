-- ===== src/Web/Escape.antt =====
-- What src/CrossPointWebServer.cpp does to a text before it writes it into JSON, XML or a header.
use crosspoint_simulator_ios.Base.{
  ℕ, ◌+◌, ◌/◌, ◌%◌, ◌||◌, [], ◌∷◌, ◌++◌, if◌then◌else◌, ltb, ◌==◌, Bytes,
}
use crosspoint_simulator_ios.Base.Text.{codes}
use crosspoint_simulator_ios.Web.Path.{empty}

-- A digit of "%04x".
abbrev pub hex_lower : ℕ → ℕ
hex_lower d = if ltb d 10 then 48 + d else 87 + d

unfoldable pub json_char : ℕ → Bytes
json_char c =
    if c == 92
    then 92 ∷ 92 ∷ []
    else if c == 34
    then 92 ∷ 34 ∷ []
    else if c == 10
    then 92 ∷ 110 ∷ []
    else if c == 13
    then 92 ∷ 114 ∷ []
    else if c == 9
    then 92 ∷ 116 ∷ []
    else if ltb c 32
    then 92 ∷ 117 ∷ 48 ∷ 48 ∷ hex_lower (c / 16) ∷ hex_lower (c % 16) ∷ []
    else c ∷ []

-- `jsonEscape`
unfoldable pub json_escape : Bytes → Bytes
json_escape [] = []
json_escape (c ∷ cs) = json_char c ++ json_escape cs

unfoldable pub xml_char : ℕ → Bytes
xml_char c =
    if c == 38
    then codes "&amp;"
    else if c == 60
    then codes "&lt;"
    else if c == 62
    then codes "&gt;"
    else if c == 34
    then codes "&quot;"
    else if c == 39
    then codes "&apos;"
    else c ∷ []

-- `xmlEscape`
unfoldable pub xml_escape : Bytes → Bytes
xml_escape [] = []
xml_escape (c ∷ cs) = xml_char c ++ xml_escape cs

-- The loop of `headerSafeFilename`.
unfoldable pub header_safe_chars : Bytes → Bytes
header_safe_chars [] = []
header_safe_chars (c ∷ cs) =
    let rest = header_safe_chars cs in
    if (c == 13) || (c == 10) then rest else if (c == 34) || (c == 92) then 95 ∷ rest else c ∷ rest

-- `headerSafeFilename`
unfoldable pub header_safe_filename : Bytes → Bytes
header_safe_filename filename =
    let out = header_safe_chars filename in if empty out then codes "download" else out
