-- ===== src/Tests/Escapes.antt =====
-- Instances of the theorems on escaped texts.
use crosspoint_simulator_ios.Base.{◌≡◌, refl, true, false, [], ◌∷◌, ◌++◌, some, Bytes, All}
use crosspoint_simulator_ios.Base.Text.{codes}
use crosspoint_simulator_ios.Web.Path.{empty}
use crosspoint_simulator_ios.Web.Escape.{
  json_char, json_escape, xml_char, xml_escape, header_safe_filename,
}
use crosspoint_simulator_ios.Web.Quoting.{
  behind_string, header_char, behind_string-json_escape, header_safe_filename-All,
}

-- A name with a quotation mark, a line break, a control character and a backslash.
abbrev odd_name : Bytes
odd_name = 97 ∷ 34 ∷ 10 ∷ 1 ∷ 92 ∷ []

behind_string-json_escape_example :
    behind_string (json_escape odd_name ++ (34 ∷ 44 ∷ [])) ≡ some (44 ∷ [])
behind_string-json_escape_example = behind_string-json_escape odd_name (44 ∷ [])

header_safe_filename-All_example :
    All (λ c. header_char c ≡ true) (header_safe_filename odd_name)
    × (empty (header_safe_filename odd_name) ≡ false)
header_safe_filename-All_example = header_safe_filename-All odd_name

json_run : json_escape (1 ∷ 34 ∷ []) ≡ 92 ∷ 117 ∷ 48 ∷ 48 ∷ 48 ∷ 49 ∷ 92 ∷ 34 ∷ []
unfolding json_escape json_char
json_run = refl

xml_run : xml_escape (codes "a<b&c") ≡ codes "a&lt;b&amp;c"
unfolding xml_escape xml_char
xml_run = refl
