-- ===== src/Web/Protection.antt =====
-- `handleClientRequest` of src/CrossPointWebServer.cpp as a whole.
use crosspoint_simulator_ios.Base.{
  ℕ, ◌≡◌, true, ◌&&◌, ◌||◌, Option, none, some, Bytes, bytes_eq, arith, Option-cases, inl, inr,
  if_both, if_guarded, subst,
}
use crosspoint_simulator_ios.Base.Text.{codes}
use crosspoint_simulator_ios.Web.Path.{
  root, empty, normalize_path, is_protected_name, is_protected_path,
}
use crosspoint_simulator_ios.Web.PathLaws.{no_slash, no_zero, name-scan}
use crosspoint_simulator_ios.Web.Request.{Request, query_value}
use crosspoint_simulator_ios.Web.Multipart.{parse_multipart_file}
use crosspoint_simulator_ios.Web.Upload.{HasName, parse_multipart_file-HasName}
use crosspoint_simulator_ios.Web.Storage.{StorageOps}
use crosspoint_simulator_ios.Web.Handlers.{Site, handle_upload}
use crosspoint_simulator_ios.Web.Dispatch.{handle_client_request}
use crosspoint_simulator_ios.Web.Safety.{Guarded}
use crosspoint_simulator_ios.Web.Guard.{
  IsSafe, HasWholeName, HasWholePaths, IsWhole, handle_mkdir-IsSafe, handle_rename-IsSafe,
  handle_move-IsSafe, handle_delete-IsSafe, handle_put-IsSafe, handle_mkcol-IsSafe,
  handle_transfer-IsSafe, store_upload-IsSafe,
}

whole-name :
    (req : Request) (name bytes : Bytes)
    → parse_multipart_file req ≡ some (name, bytes)
    → HasWholePaths req
    → no_zero name ≡ true
whole-name req name bytes found z = subst HasWholeName found z.file_name

module _ (ops : StorageOps) (P : ops.State → Type 0) (g : Guarded ops P) where
  handle_upload-IsSafe :
      (now : ℕ) (req : Request) (w : Site ops.State)
      → HasWholePaths req
      → P w.storage
      → IsSafe ops P g (handle_upload ops now req w)
  unfolding handle_upload
  handle_upload-IsSafe now req w z h = elim (Option-cases (parse_multipart_file req)) [
    | inl missing ↦ rw (handle_upload, missing) h
    | inr ((name, bytes), found) ↦
        let n : no_slash name ≡ true = subst HasName found (parse_multipart_file-HasName req) in
        let dir = normalize_path (query_value req (codes "path") root) in
        rw (handle_upload, found)
          (if_guarded (IsSafe ops P g) (is_protected_name name) h (λ k.
            if_guarded (IsSafe ops P g) (empty dir || is_protected_path dir) h (λ e.
              store_upload-IsSafe ops P g now dir name bytes w
                (record { open' = ground (arith, e); whole = z.query_path }) (name-scan name n k)
                (whole-name req name bytes found z) h)))
  ]

  -- Of a storage whose directories have no name with a slash or a zero byte, a property that every
  -- change at paths that `isProtectedPath` does not protect keeps still holds after `handleClientRequest`
  -- of any request whose decoded paths and names have no zero byte, wherever the run of a copy is cut off.
  pub handle_client_request_safe :
      (fuel now : ℕ) (req : Option Request) (w : Site ops.State)
      → IsWhole req
      → P w.storage
      → P (handle_client_request ops fuel now req w).1.storage
  unfolding handle_client_request
  handle_client_request_safe fuel now none w z h = h
  handle_client_request_safe fuel now (some req) w z h =
      let is = bytes_eq req.method in
      let at = bytes_eq req.path in
      let post = is (codes "POST") in
      let Q = IsSafe ops P g in
      if_both Q (empty req.path) h (
        if_both Q (is (codes "OPTIONS")) h (
          if_both Q (is (codes "LOCK") || is (codes "UNLOCK")) h (
            if_both Q (is (codes "PROPFIND")) h (
              if_both Q (is (codes "GET") && (at root || at (codes "/files"))) h (
                if_both Q (is (codes "GET") && at (codes "/api/status")) h (
                  if_both Q (is (codes "GET") && at (codes "/api/files")) h (
                    if_both Q ((is (codes "GET") || is (codes "HEAD")) && at (codes "/download")) h
                      (if_both Q (post && at (codes "/upload")) (handle_upload-IsSafe now req w z h)
                        (if_both Q (post && at (codes "/mkdir"))
                          (handle_mkdir-IsSafe ops P g req w z h)
                          (if_both Q (post && at (codes "/rename"))
                            (handle_rename-IsSafe ops P g req w z h)
                            (if_both Q (post && at (codes "/move"))
                              (handle_move-IsSafe ops P g req w z h)
                              (if_both Q ((post && at (codes "/delete")) || is (codes "DELETE"))
                                (handle_delete-IsSafe ops P g _ w
                                  (if_both (λ (p : Bytes). no_zero p ≡ true) (is (codes "DELETE"))
                                    z.target_given z.form_path)
                                  h)
                                (if_both Q (is (codes "PUT")) (handle_put-IsSafe ops P g req w z h)
                                  (if_both Q (is (codes "MKCOL"))
                                    (handle_mkcol-IsSafe ops P g req w z h)
                                    (if_both Q (is (codes "MOVE") || is (codes "COPY"))
                                      (handle_transfer-IsSafe ops P g fuel (is (codes "MOVE")) req w
                                        z h)
                                      h)))))))))))))))
