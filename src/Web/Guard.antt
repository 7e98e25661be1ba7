-- ===== src/Web/Guard.antt =====
-- The handlers of src/CrossPointWebServer.cpp keep what is protected as it is.
use crosspoint_simulator_ios.Base.{
  ℕ, ◌≡◌, refl, Option, Bool, true, false, not, ◌||◌, [], none, some, if◌then◌else◌, Bytes,
  bytes_eq, arith, if_both, if_guarded,
}
use crosspoint_simulator_ios.Base.Text.{codes}
use crosspoint_simulator_ios.Web.Path.{
  root, empty, normalize_path, is_protected_name, is_protected_path, protected_scan, basename_of,
  parent_of, join, with_slash, collapse, has_dot_dot, drop_trailing,
}
use crosspoint_simulator_ios.Base.Search.{c_str}
use crosspoint_simulator_ios.Web.Decode.{url_decode}
use crosspoint_simulator_ios.Web.Multipart.{parse_multipart_file}
use crosspoint_simulator_ios.Web.PathLaws.{
  no_zero, join-no_zero, basename-no_zero, parent-no_zero, IsFree, join-scan, name-scan, path-scan,
  parent-scan, basename-IsTail,
}
use crosspoint_simulator_ios.Web.Request.{
  Request, query_value, read_form_value, destination_path, should_overwrite_destination,
}
use crosspoint_simulator_ios.Web.Storage.{StorageOps}
use crosspoint_simulator_ios.Web.Handlers.{
  Site, Result, handle_mkdir, handle_rename, handle_move, handle_delete, delete_path,
  is_open_directory, handle_put, handle_mkcol, transfer, handle_transfer, store_upload,
}
use crosspoint_simulator_ios.Web.Safety.{
  Guarded, mkdir_safe, rename_safe, remove_safe, rmdir_safe, write_file_safe, copy_path_safe,
}

-- Of a path that a name below it is not protected when the path and the name are not.
basename-scan :
    (path : Bytes) → is_protected_path path ≡ false → protected_scan [] (basename_of path) ≡ false
basename-scan path u = let t = basename-IsTail path in ground (arith, t.scan, path-scan path u)

named-scan :
    (path : Bytes)
    → is_protected_name (basename_of path) ≡ false
    → protected_scan [] (basename_of path) ≡ false
named-scan path k = name-scan (basename_of path) (basename-IsTail path).no_slash k

abbrev pub HasWholeName : Option (Bytes × Bytes) → Type 0
HasWholeName none = Unit
HasWholeName (some (name, bytes)) = no_zero name ≡ true

-- The paths and names that a request gives, decoded, have no zero byte.
pub record HasWholePaths (req : Request) : Type 0 where
  pub target : no_zero (normalize_path req.path) ≡ true
  pub target_given : no_zero req.path ≡ true
  pub destination : no_zero (destination_path req) ≡ true
  pub query_path : no_zero (normalize_path (query_value req (codes "path") root)) ≡ true
  pub form_path : no_zero (normalize_path (read_form_value req.body (codes "path"))) ≡ true
  pub form_dest : no_zero (normalize_path (read_form_value req.body (codes "dest"))) ≡ true
  pub form_name : no_zero (read_form_value req.body (codes "name")) ≡ true
  pub file_name : HasWholeName (parse_multipart_file req)

-- A request that is refused gives none.
abbrev pub IsWhole : Option Request → Type 0
IsWhole none = Unit
IsWhole (some req) = HasWholePaths req

root-no_zero : no_zero (normalize_path root) ≡ true
unfolding normalize_path url_decode with_slash collapse has_dot_dot drop_trailing
root-no_zero = refl

module _ (ops : StorageOps) (P : ops.State → Type 0) (g : Guarded ops P) where
  abbrev pub IsSafe : Result ops → Type 0
  IsSafe r = P r.1.storage

  pub handle_mkdir-IsSafe :
      (req : Request) (w : Site ops.State)
      → HasWholePaths req
      → P w.storage
      → IsSafe (handle_mkdir ops req w)
  unfolding handle_mkdir
  handle_mkdir-IsSafe req w z h =
      let given = read_form_value req.body (codes "path") in
      let parent = normalize_path (if empty given then root else given) in
      let name = basename_of (read_form_value req.body (codes "name")) in
      if_guarded IsSafe (empty parent || is_protected_path parent || is_protected_name name) h (λ e.
        mkdir_safe ops P g (join parent name) w.storage
          (record {
            open' =
                join-scan parent name (path-scan parent (ground (arith, e)))
                  (named-scan _ (ground (arith, e)));
            whole =
                join-no_zero parent name
                  (if_both (λ (q : Bytes). no_zero (normalize_path q) ≡ true) (empty given)
                    root-no_zero z.form_path)
                  (basename-no_zero _ z.form_name);
          })
          h)

  pub handle_rename-IsSafe :
      (req : Request) (w : Site ops.State)
      → HasWholePaths req
      → P w.storage
      → IsSafe (handle_rename ops req w)
  unfolding handle_rename
  handle_rename-IsSafe req w z h =
      let path = normalize_path (read_form_value req.body (codes "path")) in
      let name = basename_of (read_form_value req.body (codes "name")) in
      if_guarded IsSafe
        (empty path || bytes_eq path root || is_protected_path path || is_protected_name name) h
        (λ e.
          let u : is_protected_path path ≡ false = ground (arith, e) in
          let k : is_protected_name name ≡ false = ground (arith, e) in
          rename_safe ops P g path (join (parent_of path) name) w.storage
            (record { open' = u; whole = z.form_path })
            (record {
              open' =
                  join-scan (parent_of path) name (parent-scan path (path-scan path u))
                    (named-scan (read_form_value req.body (codes "name")) k);
              whole =
                  join-no_zero (parent_of path) name (parent-no_zero path z.form_path)
                    (basename-no_zero _ z.form_name);
            })
            h)

  pub handle_move-IsSafe :
      (req : Request) (w : Site ops.State)
      → HasWholePaths req
      → P w.storage
      → IsSafe (handle_move ops req w)
  unfolding handle_move
  handle_move-IsSafe req w z h =
      let path = normalize_path (read_form_value req.body (codes "path")) in
      let dest_dir = normalize_path (read_form_value req.body (codes "dest")) in
      if_guarded IsSafe
        (empty path
          || bytes_eq path root
          || empty dest_dir
          || is_protected_path path
          || is_protected_path dest_dir)
        h
        (λ e.
          let u : is_protected_path path ≡ false = ground (arith, e) in
          let v : is_protected_path dest_dir ≡ false = ground (arith, e) in
          rename_safe ops P g path (join dest_dir (basename_of path)) w.storage
            (record { open' = u; whole = z.form_path })
            (record {
              open' =
                  join-scan dest_dir (basename_of path) (path-scan dest_dir v)
                    (basename-scan path u);
              whole =
                  join-no_zero dest_dir (basename_of path) z.form_dest
                    (basename-no_zero path z.form_path);
            })
            h)

  delete_path_safe : (p : Bytes) (s : ops.State) → IsFree p → P s → P (delete_path ops p s).1
  unfolding delete_path
  delete_path_safe p s u h =
      if_both (λ (r : Bool × ops.State). P r.1) (is_open_directory ops p s)
        (rmdir_safe ops P g p s u h) (remove_safe ops P g p s u h)

  pub handle_delete-IsSafe :
      (path : Bytes) (w : Site ops.State)
      → no_zero path ≡ true
      → P w.storage
      → IsSafe (handle_delete ops path w)
  unfolding handle_delete
  handle_delete-IsSafe path w z h =
      if_guarded IsSafe (empty path || bytes_eq path root || is_protected_path path) h
        (λ e. delete_path_safe path w.storage (record { open' = ground (arith, e); whole = z }) h)

  pub handle_put-IsSafe :
      (req : Request) (w : Site ops.State)
      → HasWholePaths req
      → P w.storage
      → IsSafe (handle_put ops req w)
  unfolding handle_put
  handle_put-IsSafe req w z h =
      let path = normalize_path req.path in
      if_guarded IsSafe (empty path || bytes_eq path root || is_protected_path path) h (λ e.
        write_file_safe ops P g path req.body w.storage
          (record { open' = ground (arith, e); whole = z.target }) h)

  pub handle_mkcol-IsSafe :
      (req : Request) (w : Site ops.State)
      → HasWholePaths req
      → P w.storage
      → IsSafe (handle_mkcol ops req w)
  unfolding handle_mkcol
  handle_mkcol-IsSafe req w z h =
      let path = normalize_path req.path in
      if_guarded IsSafe (empty path || bytes_eq path root || is_protected_path path) h (λ e.
        mkdir_safe ops P g path w.storage (record { open' = ground (arith, e); whole = z.target })
          h)

  transfer-IsSafe :
      (fuel : ℕ) (moves : Bool) (source dest : Bytes) (w : Site ops.State)
      → IsFree source
      → IsFree dest
      → P w.storage
      → IsSafe (transfer ops fuel moves source dest w)
  unfolding transfer
  transfer-IsSafe fuel moves source dest w u v h =
      if_both (λ (r : Bool × ops.State). P r.1) moves
        (rename_safe ops P g source dest w.storage u v h)
        (copy_path_safe ops P g fuel source dest w.storage v h)

  pub handle_transfer-IsSafe :
      (fuel : ℕ) (moves : Bool) (req : Request) (w : Site ops.State)
      → HasWholePaths req
      → P w.storage
      → IsSafe (handle_transfer ops fuel moves req w)
  unfolding handle_transfer
  handle_transfer-IsSafe fuel moves req w z h =
      let source = normalize_path req.path in
      let dest = destination_path req in
      let removed = delete_path ops dest w.storage in
      if_guarded IsSafe
        (empty source
          || bytes_eq source root
          || empty dest
          || bytes_eq dest root
          || is_protected_path source
          || is_protected_path dest)
        h
        (λ e.
          let u : IsFree source = record { open' = ground (arith, e); whole = z.target } in
          let v : IsFree dest = record { open' = ground (arith, e); whole = z.destination } in
          let r = delete_path_safe dest w.storage v h in
          if_both IsSafe (not (ops.exists (c_str source) w.storage)) h (
            if_both IsSafe (not (ops.exists (c_str dest) w.storage))
              (transfer-IsSafe fuel moves source dest w u v h)
              (if_both IsSafe (not (should_overwrite_destination req)) h (
                if_both IsSafe removed.0
                  (transfer-IsSafe fuel moves source dest (record w { storage = removed.1 }) u v r)
                  r))))

  pub store_upload-IsSafe :
      (now : ℕ) (dir name bytes : Bytes) (w : Site ops.State)
      → IsFree dir
      → protected_scan [] name ≡ false
      → no_zero name ≡ true
      → P w.storage
      → IsSafe (store_upload ops now dir name bytes w)
  unfolding store_upload
  store_upload-IsSafe now dir name bytes w u n z h =
      write_file_safe ops P g (join dir name) bytes _
        (record {
          open' = join-scan dir name (path-scan dir u.open') n;
          whole = join-no_zero dir name u.whole z;
        })
        (if_both P (ops.exists (c_str dir) w.storage) h (mkdir_safe ops P g dir w.storage u h))
