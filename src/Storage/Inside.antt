-- ===== src/Storage/Inside.antt =====
-- Which paths lie under the storage's root, for src/HalStorage.cpp.
use crosspoint_simulator_ios.Base.{
  ==_iff, ℕ, zero, suc, ◌≡◌, refl, sym, ◌∙◌, ap, subst, ◌⊎◌, inl, inr, Bool, true, false, ◌&&◌,
  ◌||◌, [], ◌∷◌, ◌++◌, Option, arith, if◌then◌else◌, ◌==◌, Bytes, bytes_eq, All, Bool-cases,
  append-nil, append_assoc,
}
use crosspoint_simulator_ios.Base.Text.{codes}
use crosspoint_simulator_ios.Web.Path.{slash, empty}
use crosspoint_simulator_ios.Web.PathLaws.{no_slash}
use crosspoint_simulator_ios.Storage.Paths.{
  Configuration, configured_storage_root, unsafe_scan, contains_unsafe_segment, drop_slashes,
  trim_root, or_root, resolve_storage_path, fronts, ancestors,
}
use crosspoint_simulator_ios.Storage.Ops.{hidden}

-- Whether a walk along the parts of a path, `depth` directories below its start and with `part` having been
-- read, goes above the start at some moment: ".." goes up, "." and an empty part stay.
abbrev pub climbs : ℕ → Bytes → Bytes → Bool
climbs depth part [] = bytes_eq part (codes "..") && (depth == 0)
climbs depth part (c ∷ cs) =
    let up : Bool = elim depth [ zero ↦ true | suc d ↦ climbs d [] cs ] in
    let stay = climbs depth [] cs in
    let down = climbs (suc depth) [] cs in
    let more = climbs depth (part ++ (c ∷ [])) cs in
    if c == slash
    then (if bytes_eq part (codes "..")
        then up
        else if bytes_eq part (codes ".") || bytes_eq part []
        then stay
        else down)
    else more

-- A path without the part ".." never climbs.
climbs-safe :
    (depth : ℕ) (part text : Bytes) → unsafe_scan part text ≡ false → climbs depth part text ≡ false
unfolding unsafe_scan
climbs-safe depth part [] h = ground arith
climbs-safe depth part (c ∷ cs) h = ground (
  arith,
  climbs-safe depth [] cs,
  climbs-safe (suc depth) [] cs,
  climbs-safe depth (part ++ (c ∷ [])) cs,
)

unsafe-append :
    (part a b : Bytes)
    → unsafe_scan part (a ++ (slash ∷ b)) ≡ (unsafe_scan part a || unsafe_scan [] b)
unfolding unsafe_scan
unsafe-append part [] b = ground arith
unsafe-append part (c ∷ a) b =
    ground (arith, unsafe-append [] a b, unsafe-append (part ++ (c ∷ [])) a b)

unsafe-no_slash :
    (part name : Bytes)
    → no_slash name ≡ true
    → unsafe_scan part name ≡ bytes_eq (part ++ name) (codes "..")
unfolding unsafe_scan
unsafe-no_slash part [] h = ap (λ (z : Bytes). bytes_eq z (codes "..")) (sym (append-nil part))
unsafe-no_slash part (c ∷ cs) h =
    let rest : no_slash cs ≡ true = ground arith in
    let here : (c == slash) ≡ false = ground arith in
    rw here (
      unsafe-no_slash (part ++ (c ∷ [])) cs rest
      ∙ ap (λ (z : Bytes). bytes_eq z (codes "..")) (append_assoc part (c ∷ []) cs))

plain-name :
    (name : Bytes) → no_slash name ≡ true → hidden name ≡ false → unsafe_scan [] name ≡ false
plain-name [] n h = unsafe-no_slash [] [] n
plain-name (c ∷ cs) n h = ground (arith, unsafe-no_slash [] (c ∷ cs) n)

unsafe-drop_slashes :
    (p : Bytes) → unsafe_scan [] p ≡ false → unsafe_scan [] (drop_slashes p) ≡ false
unfolding unsafe_scan drop_slashes
unsafe-drop_slashes [] h = refl
unsafe-drop_slashes (c ∷ cs) h = ground (arith, unsafe-drop_slashes cs)

-- The text is empty or begins with a slash.
abbrev pub AtSlash : Bytes → Type 0
AtSlash [] = Unit
AtSlash (c ∷ cs) = c ≡ slash

pub AtSlash-append : (a b : Bytes) → AtSlash a → AtSlash b → AtSlash (a ++ b)
AtSlash-append [] b h k = k
AtSlash-append (c ∷ a) b h k = h

-- A path, or one of the directories above it as the path names them: what is before one of its slashes.
abbrev pub IsFront : Bytes → Bytes → Type 0
IsFront p full = (t : Bytes) × (full ≡ p ++ t) × AtSlash t

fronts-IsFront : (front cs : Bytes) → All (λ (p : Bytes). IsFront p (front ++ cs)) (fronts front cs)
unfolding fronts
fronts-IsFront front [] = tt
fronts-IsFront front (c ∷ cs) =
    let rest =
      subst (λ (z : Bytes). All (λ (p : Bytes). IsFront p z) (fronts (front ++ (c ∷ [])) cs))
        (append_assoc front (c ∷ []) cs) (fronts-IsFront (front ++ (c ∷ [])) cs) in
    elim (Bool-cases (c == slash)) [
      | inl e ↦ rw (e, fronts) ((c ∷ cs, refl, (==_iff c slash).0 e), rest)
      | inr e ↦ rw (e, fronts) rest
    ]

pub ancestors-IsFront : (full : Bytes) → All (λ (p : Bytes). IsFront p full) (ancestors full)
unfolding ancestors
ancestors-IsFront [] = tt
ancestors-IsFront (c ∷ cs) = fronts-IsFront (c ∷ []) cs

module _ (config : Configuration) where
  abbrev pub base : Bytes
  base = trim_root (configured_storage_root config)

  -- The root, or the root, a slash and a path that does not climb: a file or directory under the root, as
  -- far as names tell.
  abbrev pub Inside : Bytes → Type 0
  Inside p = (p ≡ base) ⊎ ((rel : Bytes) × (p ≡ base ++ (slash ∷ rel)) × (climbs 0 [] rel ≡ false))

  -- A stronger form, which names put behind a path keep.
  abbrev pub Rooted : Bytes → Type 0
  Rooted p =
      (p ≡ base) ⊎ ((rel : Bytes) × (p ≡ base ++ (slash ∷ rel)) × (unsafe_scan [] rel ≡ false))

  pub Rooted-Inside : (p : Bytes) → Rooted p → Inside p
  Rooted-Inside p (inl e) = inl e
  Rooted-Inside p (inr (rel, e, h)) = inr (rel, e, climbs-safe 0 [] rel h)

  -- An entry of a directory, whose name has no slash and does not start with a dot.
  pub child-Rooted :
      (p name : Bytes)
      → Rooted p
      → no_slash name ≡ true
      → hidden name ≡ false
      → Rooted (p ++ (slash ∷ name))
  child-Rooted p name (inl e) n h =
      inr (name, ap (λ (z : Bytes). z ++ (slash ∷ name)) e, plain-name name n h)
  child-Rooted p name (inr (rel, e, k)) n h = inr (
    rel ++ (slash ∷ name),
    ap (λ (z : Bytes). z ++ (slash ∷ name)) e ∙ append_assoc base (slash ∷ rel) (slash ∷ name),
    ground (arith, unsafe-append [] rel name, plain-name name n h),
  )

  -- `resolveStoragePath` refuses a path or puts it under the root.
  pub resolve_storage_path-Rooted :
      (path : Option Bytes)
      → (resolve_storage_path config path ≡ []) ⊎ Rooted (resolve_storage_path config path)
  unfolding resolve_storage_path contains_unsafe_segment
  resolve_storage_path-Rooted path = elim (Bool-cases (unsafe_scan [] (or_root path))) [
    | inl bad ↦ inl (rw bad refl)
    | inr good ↦ elim (Bool-cases (empty (drop_slashes (or_root path)))) [
      | inl e ↦ inr (inl (rw (good, e) refl))
      | inr e ↦ inr (
          inr (
            drop_slashes (or_root path),
            rw (good, e) refl,
            unsafe-drop_slashes (or_root path) good,
          ))
    ]
  ]
