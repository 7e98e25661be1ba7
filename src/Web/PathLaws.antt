-- ===== src/Web/PathLaws.antt =====
-- Which paths are protected, by their parts.
use crosspoint_simulator_ios.Base.{
  ◌≡◌, refl, sym, ◌∙◌, ap, Bool, true, false, not, ◌&&◌, ◌||◌, [], ◌∷◌, ◌++◌, append-nil,
  append_assoc, Option, none, some, if◌then◌else◌, ◌==◌, Bytes, bytes_eq, arith, Bool-cases,
  if_both, inl, inr, ==_iff,
}
use crosspoint_simulator_ios.Base.Search.{c_str}
use crosspoint_simulator_ios.Web.Path.{
  slash, root, empty, is_protected_name, is_protected_part, protected_scan, is_protected_path,
  split_last, basename_of, parent_of, join,
}

scan-append :
    (part a b : Bytes)
    → protected_scan part (a ++ (slash ∷ b)) ≡ (protected_scan part a || protected_scan [] b)
unfolding protected_scan
scan-append part [] b = refl
scan-append part (c ∷ a) b = ground (arith, scan-append [] a b, scan-append (part ++ (c ∷ [])) a b)

-- Whether a text has no slash.
abbrev pub no_slash : Bytes → Bool
no_slash [] = true
no_slash (c ∷ cs) = not (c == slash) && no_slash cs

scan-no_slash :
    (part name : Bytes)
    → no_slash name ≡ true
    → protected_scan part name ≡ is_protected_part (part ++ name)
unfolding protected_scan
scan-no_slash part [] h = ap is_protected_part (sym (append-nil part))
scan-no_slash part (c ∷ cs) h =
    let rest : no_slash cs ≡ true = ground arith in
    let here : (c == slash) ≡ false = ground arith in
    rw here (
      scan-no_slash (part ++ (c ∷ [])) cs rest
      ∙ ap is_protected_part (append_assoc part (c ∷ []) cs))

-- What `split_last` gives.
abbrev pub LastSlash : Bytes → Option (Bytes × Bytes) → Type 0
LastSlash p none = no_slash p ≡ true
LastSlash p (some (a, b)) = (p ≡ a ++ (slash ∷ b)) × (no_slash b ≡ true)

pub split_last-LastSlash : (p : Bytes) → LastSlash p (split_last p)
unfolding split_last
split_last-LastSlash [] = refl
split_last-LastSlash (c ∷ cs) =
    elim (split_last cs)
        as (λ o.
          LastSlash cs o
          → LastSlash (c ∷ cs) (elim o [
            | some (a, b) ↦ some (c ∷ a, b)
            | none ↦ if c == slash then some ([], cs) else none
          ])) [
            | none ↦ λ h. elim (Bool-cases (c == slash)) [
              | inl at ↦ rw at (ap (λ x. x ∷ cs) ((==_iff c slash).0 at), h)
              | inr off ↦ rw off (rw off h)
            ]
            | some (a, b) ↦ λ h. (ap (◌∷◌ c) h.0, h.1)
          ]
      (split_last-LastSlash cs)

-- The name at the end of a path has no slash, and is protected only if the path is.
pub record IsTail (path name : Bytes) : Type 0 where
  pub no_slash : no_slash name ≡ true
  pub scan : (not (protected_scan [] name) || protected_scan [] path) ≡ true

pub basename-IsTail : (path : Bytes) → IsTail path (basename_of path)
unfolding basename_of
basename-IsTail path =
    elim (split_last path)
        as (λ o. LastSlash path o → IsTail path (elim o [ none ↦ path | some (a, b) ↦ b ])) [
          | none ↦ λ h. record { no_slash = h; scan = ground arith }
          | some (a, b) ↦ λ h. record {
            no_slash = h.1;
            scan = ground (arith, ap (protected_scan []) h.0, scan-append [] a b);
          }
        ]
      (split_last-LastSlash path)

pub parent-scan :
    (path : Bytes) → protected_scan [] path ≡ false → protected_scan [] (parent_of path) ≡ false
unfolding parent_of protected_scan
parent-scan path k =
    elim (split_last path)
        as (λ o.
          LastSlash path o
          → protected_scan [] (elim o [ none ↦ root | some (a, b) ↦ if empty a then root else a ])
            ≡ false) [
              | none ↦ λ h. refl
              | some (a, b) ↦ λ h.
                  let e = ap (protected_scan []) h.0 ∙ scan-append [] a b in
                  if_both (λ (z : Bytes). protected_scan [] z ≡ false) (empty a) refl
                    (ground (arith, e))
            ]
      (split_last-LastSlash path)

nonempty : (dir name : Bytes) → empty (dir ++ (slash ∷ name)) ≡ false
nonempty [] name = refl
nonempty (c ∷ cs) name = refl

pub join-scan :
    (dir name : Bytes)
    → protected_scan [] dir ≡ false
    → protected_scan [] name ≡ false
    → is_protected_path (join dir name) ≡ false
unfolding is_protected_path join protected_scan
join-scan dir name hd hn = elim (Bool-cases (bytes_eq dir root)) [
  | inl at_root ↦ rw at_root (scan-append [] [] name ∙ hn)
  | inr below ↦ rw below (rw (nonempty dir name) (scan-append [] dir name ∙ rw hd hn))
]

-- A name that is not protected and has no slash.
pub name-scan :
    (name : Bytes)
    → no_slash name ≡ true
    → is_protected_name name ≡ false
    → protected_scan [] name ≡ false
name-scan name h k = scan-no_slash [] name h ∙ ground (arith, k)

pub path-scan : (path : Bytes) → is_protected_path path ≡ false → protected_scan [] path ≡ false
unfolding is_protected_path
path-scan path h = ground arith

-- A path with a protected name between two slashes, or at its end behind one, is protected.
pub is_protected_path-part :
    (before name after : Bytes)
    → no_slash name ≡ true
    → empty name ≡ false
    → is_protected_name name ≡ true
    → (is_protected_path (before ++ (slash ∷ (name ++ (slash ∷ after)))) ≡ true)
      × (is_protected_path (before ++ (slash ∷ name)) ≡ true)
unfolding is_protected_path
is_protected_path-part before name after n e k =
    let at : protected_scan [] name ≡ true = scan-no_slash [] name n ∙ ground (arith, e, k) in
    (
      ground
          (arith, scan-append [] before (name ++ (slash ∷ after)), scan-append [] name after, at),
      ground (arith, scan-append [] before name, at),
    )

-- Whether a text has no zero byte.
abbrev pub no_zero : Bytes → Bool
no_zero [] = true
no_zero (c ∷ cs) = not (c == 0) && no_zero cs

pub c_str-no_zero : (p : Bytes) → no_zero p ≡ true → c_str p ≡ p
c_str-no_zero [] h = refl
c_str-no_zero (c ∷ cs) h =
    let here : (c == 0) ≡ false = ground arith in
    rw here (ap (◌∷◌ c) (c_str-no_zero cs (ground arith)))

no_zero-append : (a b : Bytes) → no_zero (a ++ b) ≡ (no_zero a && no_zero b)
no_zero-append [] b = refl
no_zero-append (c ∷ a) b = ground (arith, no_zero-append a b)

pub join-no_zero :
    (dir name : Bytes) → no_zero dir ≡ true → no_zero name ≡ true → no_zero (join dir name) ≡ true
unfolding join
join-no_zero dir name hd hn =
    if_both (λ (z : Bytes). no_zero z ≡ true) (bytes_eq dir root) hn
      (no_zero-append dir (slash ∷ name) ∙ ground (arith, hd, hn))

pub basename-no_zero : (path : Bytes) → no_zero path ≡ true → no_zero (basename_of path) ≡ true
unfolding basename_of
basename-no_zero path h =
    elim (split_last path)
        as (λ o. LastSlash path o → no_zero (elim o [ none ↦ path | some (a, b) ↦ b ]) ≡ true) [
          | none ↦ λ s. h
          | some (a, b) ↦
              λ s. let e = ap no_zero s.0 ∙ no_zero-append a (slash ∷ b) in ground (arith, e, h)
        ]
      (split_last-LastSlash path)

pub parent-no_zero : (path : Bytes) → no_zero path ≡ true → no_zero (parent_of path) ≡ true
unfolding parent_of
parent-no_zero path h =
    elim (split_last path)
        as (λ o.
          LastSlash path o
          → no_zero (elim o [ none ↦ root | some (a, b) ↦ if empty a then root else a ]) ≡ true) [
            | none ↦ λ s. refl
            | some (a, b) ↦ λ s.
                let e = ap no_zero s.0 ∙ no_zero-append a (slash ∷ b) in
                if_both (λ (z : Bytes). no_zero z ≡ true) (empty a) refl (ground (arith, e, h))
          ]
      (split_last-LastSlash path)

-- A path that is not protected and that a C string holds whole.
pub record IsFree (p : Bytes) : Type 0 where
  pub open' : is_protected_path p ≡ false
  pub whole : no_zero p ≡ true

pub c_str-IsFree : (p : Bytes) → IsFree p → is_protected_path (c_str p) ≡ false
c_str-IsFree p u = rw (c_str-no_zero p u.whole) u.open'
