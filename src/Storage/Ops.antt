-- ===== src/Storage/Ops.antt =====
-- `HalStorage` of src/HalStorage.cpp over the POSIX calls, which are a parameter.
use crosspoint_simulator_ios.Base.{
  ℕ, zero, suc, ◌+◌, Bool, true, false, ◌||◌, ◌==◌, List, [], ◌∷◌, ◌++◌, Option, none, some,
  if◌then◌else◌, ltb, Bytes,
}
use crosspoint_simulator_ios.Web.Path.{slash, empty, split_last}
use crosspoint_simulator_ios.Storage.Paths.{
  Configuration, configured_storage_root, resolve_storage_path, ancestors,
}

-- How `mkdir` ends: a new directory, EEXIST, or another error.
pub data Made : Type 0 where
  created existed failed : Made

-- The POSIX calls on an abstract state of the file system. `stat` tells whether a path is a directory,
-- `none` where there is nothing; `next_entry path i` is what call number i of `readdir` gives on the
-- open directory; `open_file` gives a descriptor.
pub record Posix : Type 1 where
  pub State : Type 0
  pub mkdir : Bytes → State → Made × State
  pub stat : Bytes → State → Option Bool
  pub open_dir : Bytes → State → Bool
  pub next_entry : Bytes → ℕ → State → Option Bytes
  pub open_file : Bytes → ℕ → State → Option ℕ × State
  pub write : ℕ → Bytes → State → State
  pub rename : Bytes → Bytes → State → Bool × State
  pub remove : Bytes → State → Bool × State
  pub rmdir : Bytes → State → Bool × State

-- What an `open` of the storage gives.
pub data Opened : Type 0 where
  closed : Opened
  file : ℕ → Opened
  directory : Bytes → Opened

abbrev pub is_made : Made → Bool
is_made Made.created = true
is_made Made.existed = true
is_made Made.failed = false

abbrev pub hidden : Bytes → Bool
hidden [] = false
hidden (c ∷ cs) = c == 46

module _ (os : Posix) (config : Configuration) where
  -- `mkdir` on each of the paths, whatever it returns.
  unfoldable pub make_all : List Bytes → os.State → os.State
  make_all [] s = s
  make_all (p ∷ ps) s = make_all ps (os.mkdir p s).1

  -- `mkdir -p`
  unfoldable pub make_path : Bytes → os.State → Bool × os.State
  make_path full s =
      let made = os.mkdir full (make_all (ancestors full) s) in (is_made made.0, made.1)

  -- `ensureParentDirectories`
  unfoldable pub ensure_parent_directories : Bytes → os.State → Bool × os.State
  ensure_parent_directories full s = elim (split_last full) [
    | none ↦ (true, s)
    | some (parent, name) ↦ if empty parent then (true, s) else make_path parent s
  ]

  -- `HalStorage::begin`
  unfoldable pub begin : os.State → Bool × os.State
  begin s = make_path (configured_storage_root config) s

  -- `HalStorage::mkdir`
  unfoldable pub mkdir : Option Bytes → os.State → Bool × os.State
  mkdir path s =
      let full = resolve_storage_path config path in
      if empty full then (false, s) else make_path full s

  -- `HalStorage::exists` for a path that is not in a container.
  unfoldable pub exists : Option Bytes → os.State → Bool
  exists path s =
      let full = resolve_storage_path config path in
      if empty full then false else elim (os.stat full s) [ none ↦ false | some d ↦ true ]

  -- `HalStorage::remove`
  unfoldable pub remove : Option Bytes → os.State → Bool × os.State
  remove path s =
      let full = resolve_storage_path config path in
      if empty full then (false, s) else os.remove full s

  -- `HalStorage::rename` and `replaceFile`
  unfoldable pub rename : Option Bytes → Option Bytes → os.State → Bool × os.State
  rename old new s =
      let from = resolve_storage_path config old in
      let to = resolve_storage_path config new in
      if empty from || empty to
      then (false, s)
      else os.rename from to (ensure_parent_directories to s).1

  -- `removeDirRecursive`, and its loop from entry i on. Both stop when the fuel runs out, so that the
  -- state is the one at that moment of the run.
  unfoldable mutual
    pub remove_dir_recursive : ℕ → Bytes → os.State → Bool × os.State
    remove_dir_recursive zero full s = (false, s)
    remove_dir_recursive (suc fuel) full s =
        let emptied = remove_entries fuel full 0 s in
        if os.open_dir full s then os.rmdir full emptied else os.remove full s

    pub remove_entries : ℕ → Bytes → ℕ → os.State → os.State
    remove_entries zero full i s = s
    remove_entries (suc fuel) full i s = elim (os.next_entry full i s) [
      | none ↦ s
      | some name ↦
          let child = full ++ (slash ∷ name) in
          let skipped = remove_entries fuel full (i + 1) s in
          let inner = remove_entries fuel full (i + 1) (remove_dir_recursive fuel child s).1 in
          let plain = remove_entries fuel full (i + 1) (os.remove child s).1 in
          if hidden name
          then skipped
          else elim (os.stat child s) [ some true ↦ inner | some false ↦ plain | none ↦ plain ]
    ]

  -- `HalStorage::rmdir` and `removeDir`
  unfoldable pub rmdir : ℕ → Option Bytes → os.State → Bool × os.State
  rmdir fuel path s =
      let full = resolve_storage_path config path in
      if empty full then (false, s) else remove_dir_recursive fuel full s

  -- `HalStorage::open`; `create` is whether the flags hold O_CREAT.
  unfoldable pub open_path : Option Bytes → (create : Bool) → ℕ → os.State → Opened × os.State
  open_path path create flags s =
      let full = resolve_storage_path config path in
      let ready = if create then (ensure_parent_directories full s).1 else s in
      let opened = os.open_file full flags ready in
      if empty full then (Opened.closed, s) else elim (os.stat full ready) [
        | some true ↦
            (if os.open_dir full ready then Opened.directory full else Opened.closed, ready)
        | some false ↦ (elim opened.0 [ none ↦ Opened.closed | some fd ↦ Opened.file fd ], opened.1)
        | none ↦ (elim opened.0 [ none ↦ Opened.closed | some fd ↦ Opened.file fd ], opened.1)
      ]

  -- `HalStorage::writeFile`, which does not look at what the write returns; on an open directory the
  -- write does nothing. `flags` is O_WRONLY | O_CREAT | O_TRUNC.
  unfoldable pub write_file : ℕ → Option Bytes → Bytes → os.State → Bool × os.State
  write_file flags path content s =
      let opened = open_path path true flags s in
      elim opened.0 [
        | Opened.closed ↦ (false, opened.1)
        | Opened.directory d ↦ (true, opened.1)
        | Opened.file fd ↦ (true, os.write fd content opened.1)
      ]

  -- The loop of `HalStorage::listFiles` from entry i on, `found` names having been listed.
  unfoldable pub list_entries : ℕ → Bytes → ℕ → ℕ → ℕ → os.State → List Bytes
  list_entries zero full i found max s = []
  list_entries (suc fuel) full i found max s = elim (os.next_entry full i s) [
    | none ↦ []
    | some name ↦
        let skipped = list_entries fuel full (i + 1) found max s in
        let listed = list_entries fuel full (i + 1) (found + 1) max s in
        if ltb found max then (if hidden name then skipped else name ∷ listed) else []
  ]

  -- `HalStorage::listFiles`
  unfoldable pub list_files : ℕ → Option Bytes → ℕ → os.State → List Bytes
  list_files fuel path max s =
      let full = resolve_storage_path config path in
      if empty full then [] else if os.open_dir full s then list_entries fuel full 0 0 max s else []
