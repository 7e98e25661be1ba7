-- ===== src/Web/Path.antt =====
-- The functions on paths of src/CrossPointWebServer.cpp.
use crosspoint_simulator_ios.Base.{
  ℕ, Bool, true, false, not, ◌&&◌, ◌||◌, [], ◌∷◌, ◌++◌, Option, none, some, if◌then◌else◌, ◌==◌,
  Bytes, bytes_eq,
}
use crosspoint_simulator_ios.Base.Text.{codes}
use crosspoint_simulator_ios.Web.Decode.{url_decode}

abbrev pub slash : ℕ
slash = 47

abbrev pub root : Bytes
root = slash ∷ []

abbrev pub empty : Bytes → Bool
empty [] = true
empty (c ∷ cs) = false

-- The loop of `normalizePath` that replaces the first "//" by "/" until there is none.
unfoldable pub collapse : Bytes → Bytes
collapse [] = []
collapse (c ∷ cs) =
    let rest = collapse cs in
    elim cs [ [] ↦ c ∷ rest | d ∷ ds ↦ if (c == slash) && (d == slash) then rest else c ∷ rest ]

-- Its `std::getline` loop, `part` having been read: whether some part is "..".
unfoldable pub has_dot_dot : Bytes → Bytes → Bool
has_dot_dot part [] = bytes_eq part (codes "..")
has_dot_dot part (c ∷ cs) =
    let next = has_dot_dot [] cs in
    let more = has_dot_dot (part ++ (c ∷ [])) cs in
    if c == slash then bytes_eq part (codes "..") || next else more

-- `if (path.size() > 1 && path.back() == '/') path.pop_back();`
unfoldable pub drop_trailing : Bytes → Bytes
drop_trailing [] = []
drop_trailing (c ∷ []) = c ∷ []
drop_trailing (c ∷ d ∷ cs) =
    let rest = drop_trailing (d ∷ cs) in
    elim cs [ [] ↦ if d == slash then c ∷ [] else c ∷ rest | _ ↦ c ∷ rest ]

unfoldable pub with_slash : Bytes → Bytes
with_slash [] = root
with_slash (c ∷ cs) = if c == slash then c ∷ cs else slash ∷ c ∷ cs

-- `normalizePath`
unfoldable pub normalize_path : Bytes → Bytes
normalize_path path =
    let p = collapse (with_slash (url_decode path)) in
    if has_dot_dot [] p then [] else drop_trailing p

-- `isProtectedName`
unfoldable pub is_protected_name : Bytes → Bool
is_protected_name [] = true
is_protected_name (c ∷ cs) =
    (c == 46)
    || bytes_eq (c ∷ cs) (codes "System Volume Information")
    || bytes_eq (c ∷ cs) (codes "XTCache")

abbrev pub is_protected_part : Bytes → Bool
is_protected_part part = not (empty part) && is_protected_name part

-- The loop of `isProtectedPath`, `part` having been read.
unfoldable pub protected_scan : Bytes → Bytes → Bool
protected_scan part [] = is_protected_part part
protected_scan part (c ∷ cs) =
    let next = protected_scan [] cs in
    let more = protected_scan (part ++ (c ∷ [])) cs in
    if c == slash then is_protected_part part || next else more

-- `isProtectedPath`
unfoldable pub is_protected_path : Bytes → Bool
is_protected_path path = empty path || protected_scan [] path

-- `path.find_last_of('/')`: what is before the last slash and behind it.
unfoldable pub split_last : Bytes → Option (Bytes × Bytes)
split_last [] = none
split_last (c ∷ cs) = elim (split_last cs) [
  | some (a, b) ↦ some (c ∷ a, b)
  | none ↦ if c == slash then some ([], cs) else none
]

-- `basenameOf`
unfoldable pub basename_of : Bytes → Bytes
basename_of path = elim (split_last path) [ none ↦ path | some (a, b) ↦ b ]

-- `parentOf`
unfoldable pub parent_of : Bytes → Bytes
parent_of path = elim (split_last path) [ none ↦ root | some (a, b) ↦ if empty a then root else a ]

-- `(dir == "/" ? "/" : dir + "/") + name`
unfoldable pub join : Bytes → Bytes → Bytes
join dir name = if bytes_eq dir root then slash ∷ name else dir ++ (slash ∷ name)
