-- ===== src/Base/Search.antt =====
-- Searching texts: `std::string::find`, `std::map` of texts, and lower case.
use Prim.Native.Nat.{ℕ, ◌+◌}
use mathlib.Core.Bool.{Bool, ◌&&◌, ◌||◌}
use mathlib.Core.List.{List, [], ◌∷◌, map}
use mathlib.Core.Option.{Option, none, some}
use crosspoint_simulator_ios.Base.Tests.{◌==◌, leb, if◌then◌else◌}
use crosspoint_simulator_ios.Base.Lists.{Bytes, bytes_eq}

-- A map of texts; the newest entry of a key comes first.
abbrev pub Texts : Type 0
Texts = List (Bytes × Bytes)

abbrev pub find_text : Bytes → Texts → Option Bytes
find_text key [] = none
find_text key ((k, v) ∷ ts) = if bytes_eq k key then some v else find_text key ts

-- The text before the first `c` and the text behind it.
abbrev pub split_at : ℕ → Bytes → Option (Bytes × Bytes)
split_at c [] = none
split_at c (x ∷ xs) =
    let rest = split_at c xs in
    if x == c then some ([], xs) else elim rest [ none ↦ none | some (a, b) ↦ some (x ∷ a, b) ]

-- The text behind a prefix.
abbrev pub strip_prefix : Bytes → Bytes → Option Bytes
strip_prefix [] xs = some xs
strip_prefix (p ∷ ps) [] = none
strip_prefix (p ∷ ps) (x ∷ xs) = let rest = strip_prefix ps xs in if p == x then rest else none

-- `std::string::find`: what is before the first occurrence of a pattern and behind it.
abbrev pub find : Bytes → Bytes → Option (Bytes × Bytes)
find pattern [] = elim (strip_prefix pattern []) [ none ↦ none | some b ↦ some ([], b) ]
find pattern (x ∷ xs) =
    let rest = find pattern xs in
    elim (strip_prefix pattern (x ∷ xs)) [
      | some b ↦ some ([], b)
      | none ↦ elim rest [ none ↦ none | some (a, b) ↦ some (x ∷ a, b) ]
    ]

-- `std::tolower` on a character and on a text.
abbrev pub to_lower : ℕ → ℕ
to_lower c = if leb 65 c && leb c 90 then c + 32 else c

abbrev pub lowered : Bytes → Bytes
lowered = map to_lower

-- `std::isspace`
abbrev pub is_space : ℕ → Bool
is_space c = (c == 32) || (leb 9 c && leb c 13)

-- `text.c_str()` to its reader: the text up to its first zero byte.
abbrev pub c_str : Bytes → Bytes
c_str [] = []
c_str (c ∷ cs) = let rest = c_str cs in if c == 0 then [] else c ∷ rest
