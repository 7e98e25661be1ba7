-- ===== src/Web/Dispatch.antt =====
-- `handleClientRequest` of src/CrossPointWebServer.cpp from the parsed request on; `none` is a request
-- that `parseRequest` refuses.
use crosspoint_simulator_ios.Base.{
  ℕ, Bool, not, ◌&&◌, ◌||◌, [], Option, none, some, if◌then◌else◌, bytes_eq,
}
use crosspoint_simulator_ios.Base.Text.{codes}
use crosspoint_simulator_ios.Web.Path.{root, empty, normalize_path, is_protected_path}
use crosspoint_simulator_ios.Base.Search.{find_text, c_str}
use crosspoint_simulator_ios.Web.Request.{Request, query_value, read_form_value}
use crosspoint_simulator_ios.Web.Storage.{StorageOps}
use crosspoint_simulator_ios.Web.Handlers.{
  Content, Response, Site, Result, plain, forbidden, handle_upload, handle_mkdir, handle_rename,
  handle_move, handle_delete, handle_put, handle_mkcol, handle_transfer,
}

module _ (ops : StorageOps) where
  -- PROPFIND
  unfoldable pub handle_propfind : Request → ops.State → Response
  handle_propfind req s =
      let path = normalize_path req.path in
      let depth : ℕ = elim (find_text (codes "depth") req.headers) [
        | none ↦ 1
        | some v ↦ if bytes_eq v (codes "0") then 0 else 1
      ] in
      if empty path || is_protected_path path
      then forbidden
      else if not (ops.exists (c_str path) s) && not (bytes_eq path root)
      then plain 404 (codes "Not found")
      else record { status = 207; content = Content.properties path depth }

  -- "/api/files"
  unfoldable pub handle_files : Request → Response
  handle_files req =
      let path = normalize_path (query_value req (codes "path") root) in
      if empty path || is_protected_path path
      then forbidden
      else record { status = 200; content = Content.listing path }

  -- "/download"; the file is the same when `handleDownload` asks again.
  unfoldable pub handle_download : Bool → Request → ops.State → Response
  handle_download head req s =
      let path = normalize_path (query_value req (codes "path") []) in
      if empty path
        || bytes_eq path root
        || is_protected_path path
        || not (ops.exists (c_str path) s)
      then plain 404 (codes "Not found")
      else elim (ops.is_directory (c_str path) s) [
        | none ↦ plain 400 (codes "Not a file")
        | some directory ↦ if directory then plain 400 (codes "Not a file") else record {
          status = 200;
          content = if head then Content.head path else Content.file path;
        }
      ]

  -- `handleClientRequest`
  unfoldable pub handle_client_request : ℕ → ℕ → Option Request → Site ops.State → Result ops
  handle_client_request fuel now none w = (plain 400 (codes "Bad request"), w)
  handle_client_request fuel now (some req) w =
      let is = bytes_eq req.method in
      let at = bytes_eq req.path in
      let post = is (codes "POST") in
      if empty req.path
      then (plain 400 (codes "Bad request"), w)
      else if is (codes "OPTIONS")
      then (plain 204 [], w)
      else if is (codes "LOCK") || is (codes "UNLOCK")
      then (plain 501 (codes "[SIM] WebDAV locks are not supported by the native simulator"), w)
      else if is (codes "PROPFIND")
      then (handle_propfind req w.storage, w)
      else if is (codes "GET") && (at root || at (codes "/files"))
      then (record { status = 200; content = Content.page }, w)
      else if is (codes "GET") && at (codes "/api/status")
      then (record { status = 200; content = Content.status_json }, w)
      else if is (codes "GET") && at (codes "/api/files")
      then (handle_files req, w)
      else if (is (codes "GET") || is (codes "HEAD")) && at (codes "/download")
      then (handle_download (is (codes "HEAD")) req w.storage, w)
      else if post && at (codes "/upload")
      then handle_upload ops now req w
      else if post && at (codes "/mkdir")
      then handle_mkdir ops req w
      else if post && at (codes "/rename")
      then handle_rename ops req w
      else if post && at (codes "/move")
      then handle_move ops req w
      else if (post && at (codes "/delete")) || is (codes "DELETE")
      then handle_delete ops
          (if is (codes "DELETE")
            then req.path
            else normalize_path (read_form_value req.body (codes "path")))
          w
      else if is (codes "PUT")
      then handle_put ops req w
      else if is (codes "MKCOL")
      then handle_mkcol ops req w
      else if is (codes "MOVE") || is (codes "COPY")
      then handle_transfer ops fuel (is (codes "MOVE")) req w
      else (plain 404 (codes "Not found"), w)
