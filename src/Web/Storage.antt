-- ===== src/Web/Storage.antt =====
-- The calls that src/CrossPointWebServer.cpp makes of the storage, as a parameter, and the two
-- functions of that file that write through several of them.
use crosspoint_simulator_ios.Base.{
  ℕ, zero, suc, ◌+◌, Bool, true, false, List, [], ◌∷◌, Option, none, some, if◌then◌else◌, Bytes,
}
use crosspoint_simulator_ios.Base.Search.{c_str}
use crosspoint_simulator_ios.Web.Path.{is_protected_name, join}

-- `Storage` and the files that it opens. A call that changes the storage returns whether it
-- succeeded. The callers hand every path over with `c_str`. `next_entry path i` is the name that the call number i of `openNextFile` finds,
-- `chunks` what the successive reads of a file give.
pub record StorageOps : Type 1 where
  pub State : Type 0
  pub exists : Bytes → State → Bool
  pub is_directory : Bytes → State → Option Bool
  pub next_entry : Bytes → ℕ → State → Option Bytes
  pub chunks : Bytes → State → List Bytes
  pub mkdir : Bytes → State → Bool × State
  pub rename : Bytes → Bytes → State → Bool × State
  pub remove : Bytes → State → Bool × State
  pub rmdir : Bytes → State → Bool × State
  pub open_for_write : Bytes → State → Bool × State
  pub write : Bytes → Bytes → State → Bool × State

module _ (ops : StorageOps) where
  -- `writeFile`
  unfoldable pub write_file : Bytes → Bytes → ops.State → Bool × ops.State
  write_file path data' s =
      let opened = ops.open_for_write (c_str path) s in
      if opened.0 then ops.write (c_str path) data' opened.1 else (false, opened.1)

  -- The loop of `copyPath` over the chunks of a file.
  unfoldable pub copy_chunks : Bytes → List Bytes → ops.State → Bool × ops.State
  copy_chunks dest [] s = (true, s)
  copy_chunks dest (c ∷ cs) s =
      let written = ops.write (c_str dest) c s in
      let rest = copy_chunks dest cs written.1 in if written.0 then rest else (false, written.1)

  -- The part of `copyPath` for a file.
  unfoldable pub copy_file : Bytes → Bytes → ops.State → Bool × ops.State
  copy_file source dest s =
      let opened = ops.open_for_write (c_str dest) s in
      let copied = copy_chunks dest (ops.chunks (c_str source) s) opened.1 in
      if opened.0
      then (if copied.0 then copied else (false, (ops.remove (c_str dest) copied.1).1))
      else (false, opened.1)

  -- `copyPath`, and its loop over a directory from entry i on. Both stop as failures when the fuel runs
  -- out, so that the state is the one at that moment of the run.
  unfoldable mutual
    pub copy_path : ℕ → Bytes → Bytes → ops.State → Bool × ops.State
    copy_path zero source dest s = (false, s)
    copy_path (suc fuel) source dest s =
        let made = ops.mkdir (c_str dest) s in
        let children = copy_children fuel 0 source dest made.1 in
        elim (ops.is_directory (c_str source) s) [
          | none ↦ (false, s)
          | some directory ↦
              if directory
              then (if made.0 then children else (false, made.1))
              else copy_file source dest s
        ]

    pub copy_children : ℕ → ℕ → Bytes → Bytes → ops.State → Bool × ops.State
    copy_children zero i source dest s = (false, s)
    copy_children (suc fuel) i source dest s = elim (ops.next_entry (c_str source) i s) [
      | none ↦ (true, s)
      | some name ↦
          let skipped = copy_children fuel (i + 1) source dest s in
          let copied = copy_path fuel (join source name) (join dest name) s in
          let rest = copy_children fuel (i + 1) source dest copied.1 in
          if is_protected_name name then skipped else (if copied.0 then rest else (false, copied.1))
    ]
