-- ===== src/Web/Handlers.antt =====
-- The handlers of src/CrossPointWebServer.cpp that change the storage. A response names its body where
-- the source renders it from the storage: the page, a listing, properties or a file's bytes.
use crosspoint_simulator_ios.Base.{
  ℕ, Bool, false, not, ◌||◌, [], none, some, if◌then◌else◌, Bytes, bytes_eq, length,
}
use crosspoint_simulator_ios.Base.Text.{codes}
use crosspoint_simulator_ios.Base.Search.{c_str}
use crosspoint_simulator_ios.Web.Path.{
  root, empty, normalize_path, is_protected_name, is_protected_path, basename_of, parent_of, join,
}
use crosspoint_simulator_ios.Web.Request.{
  Request, query_value, read_form_value, destination_path, should_overwrite_destination,
}
use crosspoint_simulator_ios.Web.Multipart.{parse_multipart_file}
use crosspoint_simulator_ios.Web.Storage.{StorageOps, write_file, copy_path}

pub data Content : Type 0 where
  text : Bytes → Content
  page status_json : Content
  listing : Bytes → Content
  properties : Bytes → ℕ → Content
  file head : Bytes → Content

-- `sendResponse`, less the type of the content.
pub record Response : Type 0 where
  pub status : ℕ
  pub content : Content

abbrev pub plain : ℕ → Bytes → Response
plain status body = record { status = status; content = Content.text body }

abbrev pub forbidden : Response
forbidden = plain 403 (codes "Forbidden")

-- `CrossPointWebServer::WsUploadStatus`
pub record UploadStatus : Type 0 where
  pub in_progress : Bool
  pub filename : Bytes
  pub total : ℕ
  pub received : ℕ
  pub last_complete_name : Bytes
  pub last_complete_size : ℕ
  pub last_complete_at : ℕ

-- The storage and `NativeServerState::uploadStatus`.
pub record Site (S : Type 0) : Type 0 where
  pub storage : S
  pub upload_status : UploadStatus

module _ (ops : StorageOps) where
  abbrev pub Result : Type 0
  Result = Response × Site ops.State

  -- A call of the storage that decides between two responses.
  abbrev pub respond : Response → Response → Bool × ops.State → Site ops.State → Result
  respond done failed r w = (if r.0 then done else failed, record w { storage = r.1 })

  unfoldable pub store_upload : ℕ → Bytes → Bytes → Bytes → Site ops.State → Result
  store_upload now dir name bytes w =
      let s =
        if ops.exists (c_str dir) w.storage
        then w.storage
        else (ops.mkdir (c_str dir) w.storage).1 in
      let written = write_file ops (join dir name) bytes s in
      let ok = written.0 in
      (
        if ok then plain 200 (codes "Uploaded") else plain 500 (codes "Upload failed"),
        record {
          storage = written.1;
          upload_status = record {
            in_progress = false;
            filename = name;
            total = length bytes;
            received = if ok then length bytes else 0;
            last_complete_name = if ok then name else [];
            last_complete_size = if ok then length bytes else 0;
            last_complete_at = if ok then now else 0;
          };
        },
      )

  -- "/upload"; `now` is `millis()`.
  unfoldable pub handle_upload : ℕ → Request → Site ops.State → Result
  handle_upload now req w = elim (parse_multipart_file req) [
    | none ↦ (plain 400 (codes "Missing file"), w)
    | some (name, bytes) ↦
        let dir = normalize_path (query_value req (codes "path") root) in
        if is_protected_name name
        then (plain 400 (codes "Missing file"), w)
        else if empty dir || is_protected_path dir
        then (forbidden, w)
        else store_upload now dir name bytes w
  ]

  -- "/mkdir"
  unfoldable pub handle_mkdir : Request → Site ops.State → Result
  handle_mkdir req w =
      let given = read_form_value req.body (codes "path") in
      let parent = normalize_path (if empty given then root else given) in
      let name = basename_of (read_form_value req.body (codes "name")) in
      if empty parent || is_protected_path parent || is_protected_name name
      then (forbidden, w)
      else respond (plain 200 (codes "Folder created")) (plain 500 (codes "Folder created"))
          (ops.mkdir (c_str (join parent name)) w.storage) w

  -- "/rename"
  unfoldable pub handle_rename : Request → Site ops.State → Result
  handle_rename req w =
      let path = normalize_path (read_form_value req.body (codes "path")) in
      let name = basename_of (read_form_value req.body (codes "name")) in
      if empty path || bytes_eq path root || is_protected_path path || is_protected_name name
      then (forbidden, w)
      else respond (plain 200 (codes "Renamed")) (plain 500 (codes "Renamed"))
          (ops.rename (c_str path) (c_str (join (parent_of path) name)) w.storage) w

  -- "/move"
  unfoldable pub handle_move : Request → Site ops.State → Result
  handle_move req w =
      let path = normalize_path (read_form_value req.body (codes "path")) in
      let dest_dir = normalize_path (read_form_value req.body (codes "dest")) in
      if empty path
        || bytes_eq path root
        || empty dest_dir
        || is_protected_path path
        || is_protected_path dest_dir
      then (forbidden, w)
      else respond (plain 200 (codes "Moved")) (plain 500 (codes "Moved"))
          (ops.rename (c_str path) (c_str (join dest_dir (basename_of path))) w.storage) w

  abbrev pub is_open_directory : Bytes → ops.State → Bool
  is_open_directory path s = elim (ops.is_directory (c_str path) s) [ none ↦ false | some d ↦ d ]

  -- `rmdir` for a directory, else `remove`.
  unfoldable pub delete_path : Bytes → ops.State → Bool × ops.State
  delete_path path s =
      if is_open_directory path s then ops.rmdir (c_str path) s else ops.remove (c_str path) s

  -- "/delete" and DELETE, at the path that the caller found.
  unfoldable pub handle_delete : Bytes → Site ops.State → Result
  handle_delete path w =
      if empty path || bytes_eq path root || is_protected_path path
      then (forbidden, w)
      else respond (plain 200 (codes "Deleted")) (plain 500 (codes "Delete failed"))
          (delete_path path w.storage) w

  -- PUT
  unfoldable pub handle_put : Request → Site ops.State → Result
  handle_put req w =
      let path = normalize_path req.path in
      if empty path || bytes_eq path root || is_protected_path path
      then (forbidden, w)
      else respond (plain 201 (codes "Stored")) (plain 500 (codes "Stored"))
          (write_file ops path req.body w.storage) w

  -- MKCOL
  unfoldable pub handle_mkcol : Request → Site ops.State → Result
  handle_mkcol req w =
      let path = normalize_path req.path in
      if empty path || bytes_eq path root || is_protected_path path
      then (forbidden, w)
      else respond (plain 201 (codes "Created")) (plain 500 (codes "Created"))
          (ops.mkdir (c_str path) w.storage) w

  -- The end of MOVE and COPY.
  unfoldable pub transfer : ℕ → Bool → Bytes → Bytes → Site ops.State → Result
  transfer fuel moves source dest w =
      respond (plain 201 (codes "Done")) (plain 500 (codes "Failed"))
        (if moves
          then ops.rename (c_str source) (c_str dest) w.storage
          else copy_path ops fuel source dest w.storage)
        w

  -- MOVE and COPY; `fuel` bounds the run of `copyPath`.
  unfoldable pub handle_transfer : ℕ → Bool → Request → Site ops.State → Result
  handle_transfer fuel moves req w =
      let source = normalize_path req.path in
      let dest = destination_path req in
      let removed = delete_path dest w.storage in
      if empty source
        || bytes_eq source root
        || empty dest
        || bytes_eq dest root
        || is_protected_path source
        || is_protected_path dest
      then (forbidden, w)
      else if not (ops.exists (c_str source) w.storage)
      then (plain 404 (codes "Not found"), w)
      else if not (ops.exists (c_str dest) w.storage)
      then transfer fuel moves source dest w
      else if not (should_overwrite_destination req)
      then (plain 412 (codes "Destination exists"), w)
      else if removed.0
      then transfer fuel moves source dest (record w { storage = removed.1 })
      else (plain 500 (codes "Could not overwrite destination"), record w { storage = removed.1 })
