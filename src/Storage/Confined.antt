-- ===== src/Storage/Confined.antt =====
-- No call of `HalStorage` (src/HalStorage.cpp) leaves the storage's root.
use crosspoint_simulator_ios.Base.{
  refl, ℕ, zero, suc, ◌+◌, ◌≡◌, ◌∙◌, ap, subst, inl, inr, Bool, true, false, List, [], ◌∷◌, ◌++◌,
  Option, none, some, if◌then◌else◌, Bytes, All, if_both, if_guarded, append_assoc, Option-cases,
}
use crosspoint_simulator_ios.Web.Path.{slash, empty, split_last}
use crosspoint_simulator_ios.Web.PathLaws.{no_slash, LastSlash, split_last-LastSlash}
use crosspoint_simulator_ios.Storage.Paths.{Configuration, resolve_storage_path, ancestors}
use crosspoint_simulator_ios.Storage.Ops.{
  Posix, hidden, make_all, make_path, ensure_parent_directories, remove_dir_recursive,
  remove_entries,
}
use crosspoint_simulator_ios.Storage.Inside.{
  IsFront, AtSlash-append, ancestors-IsFront, Inside, Rooted, Rooted-Inside, child-Rooted,
  resolve_storage_path-Rooted,
}

-- What may not change, `P`, is kept by every POSIX call on a path inside the root, by a `mkdir` of a directory
-- above such a path, and by a write to a file opened inside; and the names that `readdir`
-- gives have no slash.
pub record Confined (os : Posix) (config : Configuration) (P : os.State → Type 0) : Type 0 where
  pub mkdir :
      (p full : Bytes) (s : os.State)
      → IsFront p full
      → Inside config full
      → P s
      → P (os.mkdir p s).1
  pub open_file :
      (p : Bytes) (flags : ℕ) (s : os.State) → Inside config p → P s → P (os.open_file p flags s).1
  pub write :
      (p : Bytes) (flags fd : ℕ) (content : Bytes) (s : os.State)
      → Inside config p
      → (os.open_file p flags s).0 ≡ some fd
      → P s
      → P (os.write fd content (os.open_file p flags s).1)
  pub rename :
      (p q : Bytes) (s : os.State) → Inside config p → Inside config q → P s → P (os.rename p q s).1
  pub remove : (p : Bytes) (s : os.State) → Inside config p → P s → P (os.remove p s).1
  pub rmdir : (p : Bytes) (s : os.State) → Inside config p → P s → P (os.rmdir p s).1
  pub names :
      (p : Bytes) (i : ℕ) (s : os.State) (name : Bytes)
      → os.next_entry p i s ≡ some name
      → no_slash name ≡ true

module _ (os : Posix) (config : Configuration) (P : os.State → Type 0)
    (k : Confined os config P) where
  make_all-Confined :
      (full : Bytes) (ps : List Bytes) (s : os.State)
      → Inside config full
      → All (λ (p : Bytes). IsFront p full) ps
      → P s
      → P (make_all os config ps s)
  unfolding make_all
  make_all-Confined full [] s i f h = h
  make_all-Confined full (p ∷ ps) s i f h =
      make_all-Confined full ps (os.mkdir p s).1 i f.1 (k.mkdir p full s f.0 i h)

  -- `mkdir -p` on a text that an inside path begins with.
  pub make_path-Confined :
      (p full : Bytes) (s : os.State)
      → IsFront p full
      → Inside config full
      → P s
      → P (make_path os config p s).1
  unfolding make_path
  make_path-Confined p full s f i h =
      k.mkdir p full _ f i
        (make_all-Confined full (ancestors p) s i (longer (ancestors p) (ancestors-IsFront p)) h)
    where
      longer :
          (ps : List Bytes)
          → All (λ (q : Bytes). IsFront q p) ps
          → All (λ (q : Bytes). IsFront q full) ps
      longer [] a = tt
      longer (q ∷ qs) (a, as') = (
        (
          a.0 ++ f.0,
          f.1 ∙ (ap (λ (z : Bytes). z ++ f.0) a.1 ∙ append_assoc q a.0 f.0),
          AtSlash-append a.0 f.0 a.2 f.2,
        ),
        longer qs as',
      )

  pub ensure_parent_directories-Confined :
      (full : Bytes) (s : os.State)
      → Inside config full
      → P s
      → P (ensure_parent_directories os config full s).1
  unfolding ensure_parent_directories
  ensure_parent_directories-Confined full s i h = elim (Option-cases (split_last full)) [
    | inl e ↦ rw (e, ensure_parent_directories) h
    | inr ((parent, name), e) ↦
        rw (e, ensure_parent_directories)
          (if_both (λ (r : Bool × os.State). P r.1) (empty parent) h
            (make_path-Confined parent full s
              (slash ∷ name, (subst (LastSlash full) e (split_last-LastSlash full)).0, refl) i h))
  ]

  stat_cases :
      (o : Option Bool) {a b : os.State}
      → P a
      → P b
      → P (elim o [ some true ↦ a | some false ↦ b | none ↦ b ])
  stat_cases none x y = y
  stat_cases (some true) x y = x
  stat_cases (some false) x y = y

  mutual
    unfolding remove_dir_recursive remove_entries

    pub remove_dir_recursive-Confined :
        (fuel : ℕ) (full : Bytes) (s : os.State)
        → Rooted config full
        → P s
        → P (remove_dir_recursive os config fuel full s).1
    remove_dir_recursive-Confined zero full s r h = h
    remove_dir_recursive-Confined (suc fuel) full s r h =
        if_both (λ (o : Bool × os.State). P o.1) (os.open_dir full s)
          (k.rmdir full _ (Rooted-Inside config full r) (remove_entries-Confined fuel full 0 s r h))
          (k.remove full s (Rooted-Inside config full r) h)

    remove_entries-Confined :
        (fuel : ℕ) (full : Bytes) (i : ℕ) (s : os.State)
        → Rooted config full
        → P s
        → P (remove_entries os config fuel full i s)
    remove_entries-Confined zero full i s r h = h
    remove_entries-Confined (suc fuel) full i s r h = elim (Option-cases (os.next_entry full i s)) [
      | inl e ↦ rw (e, remove_entries) h
      | inr (name, e) ↦
          rw (e, remove_entries)
            (if_guarded P (hidden name) (remove_entries-Confined fuel full (i + 1) s r h) (λ v.
              let child = full ++ (slash ∷ name) in
              let below = child-Rooted config full name r (k.names full i s name e) v in
              let inner =
                remove_entries-Confined fuel full (i + 1) _ r
                  (remove_dir_recursive-Confined fuel child s below h) in
              let plain =
                remove_entries-Confined fuel full (i + 1) _ r
                  (k.remove child s (Rooted-Inside config child below) h) in
              stat_cases (os.stat child s) inner plain))
    ]

  -- A call that resolves a path does nothing or acts on a path under the root.
  pub resolved :
      (path : Option Bytes) (f : Bytes → Bool × os.State) (s : os.State)
      → P s
      → ((full : Bytes) → Rooted config full → P (f full).1)
      → P
          (if empty (resolve_storage_path config path)
            then (false, s)
            else f (resolve_storage_path config path)).1
  resolved path f s h g = elim (resolve_storage_path-Rooted config path) [
    | inl e ↦ rw e h
    | inr r ↦
        if_both (λ (o : Bool × os.State). P o.1) (empty (resolve_storage_path config path)) h
          (g (resolve_storage_path config path) r)
  ]
