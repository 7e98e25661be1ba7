-- ===== src/Storage/Paths.antt =====
-- The paths of src/HalStorage.cpp: the storage's root, and the resolution of a path under it.
use crosspoint_simulator_ios.Base.{
  Bool, true, false, List, [], ◌∷◌, ◌++◌, Option, none, some, if◌then◌else◌, ◌==◌, Bytes, bytes_eq,
}
use crosspoint_simulator_ios.Base.Text.{codes}
use crosspoint_simulator_ios.Web.Path.{slash, root, empty}

-- What `configuredStorageRoot` reads: two environment variables and the platform's own directory.
pub record Configuration : Type 0 where
  pub simulator_sd : Option Bytes
  pub emulator_sd : Option Bytes
  pub documents : Option Bytes

-- `root && *root`
abbrev pub is_set : Option Bytes → Bool
is_set none = false
is_set (some []) = false
is_set (some (c ∷ cs)) = true

-- `configuredStorageRoot`
unfoldable pub configured_storage_root : Configuration → Bytes
configured_storage_root c =
    let first = if is_set c.simulator_sd then c.simulator_sd else c.emulator_sd in
    elim (if is_set first then first else c.documents) [ some path ↦ path | none ↦ codes "./fs_" ]

-- The loop of `containsUnsafeSegment`, `segment` having been read.
unfoldable pub unsafe_scan : Bytes → Bytes → Bool
unsafe_scan segment [] = bytes_eq segment (codes "..")
unsafe_scan segment (c ∷ cs) =
    let next = unsafe_scan [] cs in
    let more = unsafe_scan (segment ++ (c ∷ [])) cs in
    if c == slash then (if bytes_eq segment (codes "..") then true else next) else more

-- `containsUnsafeSegment`
unfoldable pub contains_unsafe_segment : Bytes → Bool
contains_unsafe_segment path = unsafe_scan [] path

-- `while (!logical.empty() && logical.front() == '/') logical.erase(logical.begin());`
unfoldable pub drop_slashes : Bytes → Bytes
drop_slashes [] = []
drop_slashes (c ∷ cs) = let rest = drop_slashes cs in if c == slash then rest else c ∷ cs

-- A text without the slashes at its end.
unfoldable pub drop_back_slashes : Bytes → Bytes
drop_back_slashes [] = []
drop_back_slashes (c ∷ cs) = elim (drop_back_slashes cs) [
  | [] ↦ if c == slash then [] else c ∷ []
  | d ∷ ds ↦ c ∷ d ∷ ds
]

-- `while (root.size() > 1 && root.back() == '/') root.pop_back();`
unfoldable pub trim_root : Bytes → Bytes
trim_root [] = []
trim_root (c ∷ cs) = c ∷ drop_back_slashes cs

abbrev pub or_root : Option Bytes → Bytes
or_root none = root
or_root (some []) = root
or_root (some (c ∷ cs)) = c ∷ cs

-- `resolveStoragePath`; `none` is a null pointer, and the empty text is the refusal.
unfoldable pub resolve_storage_path : Configuration → Option Bytes → Bytes
resolve_storage_path config path =
    let logical = drop_slashes (or_root path) in
    let base = trim_root (configured_storage_root config) in
    if contains_unsafe_segment (or_root path)
    then []
    else if empty logical
    then base
    else base ++ (slash ∷ logical)

-- `full.substr(0, i)` for each slash at an i from 1 on, `front` having been read.
unfoldable pub fronts : Bytes → Bytes → List Bytes
fronts front [] = []
fronts front (c ∷ cs) =
    let rest = fronts (front ++ (c ∷ [])) cs in if c == slash then front ∷ rest else rest

unfoldable pub ancestors : Bytes → List Bytes
ancestors [] = []
ancestors (c ∷ cs) = fronts (c ∷ []) cs
