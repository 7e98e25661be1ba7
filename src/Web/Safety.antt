-- ===== src/Web/Safety.antt =====
-- No request changes what is protected: the writes of src/CrossPointWebServer.cpp.
use crosspoint_simulator_ios.Base.{
  ℕ, zero, suc, ◌+◌, ◌≡◌, Bool, true, false, List, [], ◌∷◌, some, Bytes, Bool-cases, Option-cases,
  inl, inr, if_both,
}
use crosspoint_simulator_ios.Base.Search.{c_str}
use crosspoint_simulator_ios.Web.Path.{is_protected_name, is_protected_path, join}
use crosspoint_simulator_ios.Web.PathLaws.{
  no_zero, join-no_zero, IsFree, c_str-IsFree, no_slash, join-scan, name-scan, path-scan,
}
use crosspoint_simulator_ios.Web.Storage.{
  StorageOps, write_file, copy_chunks, copy_file, copy_path, copy_children,
}

-- A property of the storage that every change at a path that is not protected keeps, and a storage
-- whose directories have no name with a slash, as in every file system.
pub record Guarded (ops : StorageOps) (P : ops.State → Type 0) : Type 0 where
  pub mkdir : (p : Bytes) (s : ops.State) → is_protected_path p ≡ false → P s → P (ops.mkdir p s).1
  pub rename :
      (p q : Bytes) (s : ops.State)
      → is_protected_path p ≡ false
      → is_protected_path q ≡ false
      → P s
      → P (ops.rename p q s).1
  pub remove :
      (p : Bytes) (s : ops.State) → is_protected_path p ≡ false → P s → P (ops.remove p s).1
  pub rmdir : (p : Bytes) (s : ops.State) → is_protected_path p ≡ false → P s → P (ops.rmdir p s).1
  pub open_for_write :
      (p : Bytes) (s : ops.State) → is_protected_path p ≡ false → P s → P (ops.open_for_write p s).1
  pub write :
      (p d : Bytes) (s : ops.State) → is_protected_path p ≡ false → P s → P (ops.write p d s).1
  pub names :
      (p : Bytes) (i : ℕ) (s : ops.State) (name : Bytes)
      → ops.next_entry p i s ≡ some name
      → (no_slash name ≡ true) × (no_zero name ≡ true)

module _ (ops : StorageOps) (P : ops.State → Type 0) (g : Guarded ops P) where
  -- The changes at a path that a C string holds whole.
  pub mkdir_safe : (p : Bytes) (s : ops.State) → IsFree p → P s → P (ops.mkdir (c_str p) s).1
  mkdir_safe p s u h = g.mkdir (c_str p) s (c_str-IsFree p u) h

  pub rename_safe :
      (p q : Bytes) (s : ops.State)
      → IsFree p
      → IsFree q
      → P s
      → P (ops.rename (c_str p) (c_str q) s).1
  rename_safe p q s u v h = g.rename (c_str p) (c_str q) s (c_str-IsFree p u) (c_str-IsFree q v) h

  pub remove_safe : (p : Bytes) (s : ops.State) → IsFree p → P s → P (ops.remove (c_str p) s).1
  remove_safe p s u h = g.remove (c_str p) s (c_str-IsFree p u) h

  pub rmdir_safe : (p : Bytes) (s : ops.State) → IsFree p → P s → P (ops.rmdir (c_str p) s).1
  rmdir_safe p s u h = g.rmdir (c_str p) s (c_str-IsFree p u) h

  open_for_write_safe :
      (p : Bytes) (s : ops.State) → IsFree p → P s → P (ops.open_for_write (c_str p) s).1
  open_for_write_safe p s u h = g.open_for_write (c_str p) s (c_str-IsFree p u) h

  write_safe : (p d : Bytes) (s : ops.State) → IsFree p → P s → P (ops.write (c_str p) d s).1
  write_safe p d s u h = g.write (c_str p) d s (c_str-IsFree p u) h

  pub write_file_safe : (p d : Bytes) (s : ops.State) → IsFree p → P s → P (write_file ops p d s).1
  unfolding write_file
  write_file_safe p d s u h =
      let o = open_for_write_safe p s u h in
      if_both (λ (r : Bool × ops.State). P r.1) (ops.open_for_write (c_str p) s).0
        (write_safe p d (ops.open_for_write (c_str p) s).1 u o) o

  copy_chunks_safe :
      (p : Bytes) (cs : List Bytes) (s : ops.State) → IsFree p → P s → P (copy_chunks ops p cs s).1
  unfolding copy_chunks
  copy_chunks_safe p [] s u h = h
  copy_chunks_safe p (c ∷ cs) s u h =
      let w = write_safe p c s u h in
      if_both (λ (r : Bool × ops.State). P r.1) (ops.write (c_str p) c s).0
        (copy_chunks_safe p cs (ops.write (c_str p) c s).1 u w) w

  copy_file_safe : (p q : Bytes) (s : ops.State) → IsFree q → P s → P (copy_file ops p q s).1
  unfolding copy_file
  copy_file_safe p q s u h =
      let o = open_for_write_safe q s u h in
      let opened = ops.open_for_write (c_str q) s in
      let copied = copy_chunks ops q (ops.chunks (c_str p) s) opened.1 in
      let c = copy_chunks_safe q (ops.chunks (c_str p) s) opened.1 u o in
      let Q : Bool × ops.State → Type 0 = λ r. P r.1 in
      if_both Q opened.0 (if_both Q copied.0 c (remove_safe q copied.1 u c)) o

  child-IsFree :
      (dest name : Bytes)
      → IsFree dest
      → (no_slash name ≡ true) × (no_zero name ≡ true)
      → is_protected_name name ≡ false
      → IsFree (join dest name)
  child-IsFree dest name u n k = record {
    open' = join-scan dest name (path-scan dest u.open') (name-scan name n.0 k);
    whole = join-no_zero dest name u.whole n.1;
  }

  mutual
    unfolding copy_path copy_children

    pub copy_path_safe :
        (fuel : ℕ) (p q : Bytes) (s : ops.State) → IsFree q → P s → P (copy_path ops fuel p q s).1
    copy_path_safe zero p q s u h = h
    copy_path_safe (suc fuel) p q s u h =
        let Q : Bool × ops.State → Type 0 = λ r. P r.1 in
        let m = mkdir_safe q s u h in
        elim (Option-cases (ops.is_directory (c_str p) s)) [
          | inl missing ↦ rw (copy_path, missing) h
          | inr (d, found) ↦
              rw (copy_path, found)
                (if_both Q d
                  (if_both Q (ops.mkdir (c_str q) s).0
                    (copy_children_safe fuel 0 p q (ops.mkdir (c_str q) s).1 u m) m)
                  (copy_file_safe p q s u h))
        ]

    copy_children_safe :
        (fuel i : ℕ) (p q : Bytes) (s : ops.State)
        → IsFree q
        → P s
        → P (copy_children ops fuel i p q s).1
    copy_children_safe zero i p q s u h = h
    copy_children_safe (suc fuel) i p q s u h =
        let Q : Bool × ops.State → Type 0 = λ r. P r.1 in
        elim (Option-cases (ops.next_entry (c_str p) i s)) [
          | inl done ↦ rw (copy_children, done) h
          | inr (name, found) ↦ elim (Bool-cases (is_protected_name name)) [
            | inl hidden ↦
                rw (copy_children, found, hidden) (copy_children_safe fuel (i + 1) p q s u h)
            | inr shown ↦
                let c =
                  copy_path_safe fuel (join p name) (join q name) s
                    (child-IsFree q name u (g.names (c_str p) i s name found) shown) h in
                let next = copy_path ops fuel (join p name) (join q name) s in
                rw (copy_children, found, shown)
                  (if_both Q next.0 (copy_children_safe fuel (i + 1) p q next.1 u c) c)
          ]
        ]
