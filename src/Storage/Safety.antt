-- ===== src/Storage/Safety.antt =====
-- Runs of calls of `HalStorage` (src/HalStorage.cpp) and what they keep.
use crosspoint_simulator_ios.Base.{
  ℕ, ◌≡◌, refl, sym, ap, ◌∙◌, append-nil, if_guarded, inl, inr, Bool, true, false, ◌||◌, List, [],
  ◌∷◌, Option, none, some, arith, if◌then◌else◌, Bytes, if_both, Option-cases,
}
use crosspoint_simulator_ios.Web.Path.{empty}
use crosspoint_simulator_ios.Storage.Paths.{Configuration, resolve_storage_path}
use crosspoint_simulator_ios.Storage.Ops
use crosspoint_simulator_ios.Storage.Ops.{Posix, Opened}
use crosspoint_simulator_ios.Storage.Inside.{Inside, Rooted-Inside, resolve_storage_path-Rooted}
use crosspoint_simulator_ios.Storage.Confined.{
  Confined, make_path-Confined, ensure_parent_directories-Confined, remove_dir_recursive-Confined,
  resolved,
}

-- The calls of the storage that change something, each with its arguments; a removal of a directory has
-- its fuel.
pub data Call : Type 0 where
  mkdir remove : Option Bytes → Call
  rename : Option Bytes → Option Bytes → Call
  rmdir : ℕ → Option Bytes → Call
  open_path : Option Bytes → Bool → ℕ → Call
  write_file : ℕ → Option Bytes → Bytes → Call

module _ (os : Posix) (config : Configuration) where
  abbrev pub run_call : Call → os.State → os.State
  run_call (mkdir path) s = (Ops.mkdir os config path s).1
  run_call (remove path) s = (Ops.remove os config path s).1
  run_call (rename old new) s = (Ops.rename os config old new s).1
  run_call (rmdir fuel path) s = (Ops.rmdir os config fuel path s).1
  run_call (open_path path create flags) s = (Ops.open_path os config path create flags s).1
  run_call (write_file flags path content) s = (Ops.write_file os config flags path content s).1

  abbrev pub run_calls : List Call → os.State → os.State
  run_calls [] s = s
  run_calls (c ∷ cs) s = run_calls cs (run_call c s)

module _ (os : Posix) (config : Configuration) (P : os.State → Type 0)
    (k : Confined os config P) where
  -- What an `open` leaves, and what a write to the file that it opened leaves.
  record OpenSafe (o : Opened × os.State) : Type 0 where
    after : P o.1
    written : (fd : ℕ) (content : Bytes) → o.0 ≡ Opened.file fd → P (os.write fd content o.1)

  nothing_opened : (s : os.State) → P s → OpenSafe (Opened.closed, s)
  nothing_opened s h = record { after = h; written = λ fd content e. absurd (cc) }

  opened_file :
      (full : Bytes) (s : os.State) (flags : ℕ)
      → Inside config full
      → P s
      → OpenSafe (
        elim (os.open_file full flags s).0 [ none ↦ Opened.closed | some fd ↦ Opened.file fd ],
        (os.open_file full flags s).1,
      )
  opened_file full s flags i h = elim (Option-cases (os.open_file full flags s).0) [
    | inl e ↦ rw e (nothing_opened _ (k.open_file full flags s i h))
    | inr (fd, e) ↦ rw e (record {
      after = k.open_file full flags s i h;
      written = λ fd' content f.
          let same : fd ≡ fd' = cc in k.write full flags fd' content s i (e ∙ ap some same) h;
    })
  ]

  -- What `stat` says decides between a directory and a file.
  found_cases :
      (full : Bytes) (s : os.State) (flags : ℕ)
      → Inside config full
      → P s
      → (o : Option Bool)
      → let file : Opened × os.State = (
        elim (os.open_file full flags s).0 as (λ x. Opened) [
          | none ↦ Opened.closed
          | some fd ↦ Opened.file fd
        ],
        (os.open_file full flags s).1,
      ) in
        OpenSafe (elim o as (λ x. Opened × os.State) [
          | some true ↦ (if os.open_dir full s then Opened.directory full else Opened.closed, s)
          | some false ↦ file
          | none ↦ file
        ])
  found_cases full s flags i h none = opened_file full s flags i h
  found_cases full s flags i h (some false) = opened_file full s flags i h
  found_cases full s flags i h (some true) = record {
    after = h;
    written = λ fd content e. absurd (ground arith);
  }

  open_path-safe :
      (path : Option Bytes) (create : Bool) (flags : ℕ) (s : os.State)
      → P s
      → OpenSafe (Ops.open_path os config path create flags s)
  unfolding Ops.open_path
  open_path-safe path create flags s h =
      let full = resolve_storage_path config path in
      let ready = if create then (Ops.ensure_parent_directories os config full s).1 else s in
      elim (resolve_storage_path-Rooted config path) [
        | inl e ↦ rw (e, Ops.open_path) (nothing_opened s h)
        | inr r ↦
            let i = Rooted-Inside config full r in
            let prepared : P ready =
              if_both P create (ensure_parent_directories-Confined os config P k full s i h) h in
            if_both OpenSafe (empty full) (nothing_opened s h)
              (found_cases full ready flags i prepared (os.stat full ready))
      ]

  write_file-safe :
      (flags : ℕ) (path : Option Bytes) (content : Bytes) (s : os.State)
      → P s
      → P (Ops.write_file os config flags path content s).1
  unfolding Ops.write_file
  write_file-safe flags path content s h =
      go (Ops.open_path os config path true flags s) (open_path-safe path true flags s h)
    where
      go :
          (o : Opened × os.State)
          → OpenSafe o
          → let r : Bool × os.State = elim o.0 [
            | Opened.closed ↦ (false, o.1)
            | Opened.directory d ↦ (true, o.1)
            | Opened.file fd ↦ (true, os.write fd content o.1)
          ] in
            P r.1
      go (Opened.closed, t) r = r.after
      go (Opened.directory d, t) r = r.after
      go (Opened.file fd, t) r = r.written fd content refl

  run_call-safe : (c : Call) (s : os.State) → P s → P (run_call os config c s)
  unfolding Ops.mkdir Ops.remove Ops.rename Ops.rmdir
  run_call-safe (mkdir path) s h =
      resolved os config P k path (λ full. Ops.make_path os config full s) s h
        (λ full r.
          make_path-Confined os config P k full full s ([], sym (append-nil full), tt)
            (Rooted-Inside config full r) h)
  run_call-safe (remove path) s h =
      resolved os config P k path (λ full. os.remove full s) s h
        (λ full r. k.remove full s (Rooted-Inside config full r) h)
  run_call-safe (rename old new) s h =
      let from = resolve_storage_path config old in
      let to = resolve_storage_path config new in
      if_guarded (λ (o : Bool × os.State). P o.1) (empty from || empty to) h
        (λ v. elim (resolve_storage_path-Rooted config old) [
          | inl e ↦ absurd (let b : (empty from || empty to) ≡ true = rw e refl in cc)
          | inr r ↦ elim (resolve_storage_path-Rooted config new) [
            | inl e ↦ absurd (let b : empty to ≡ true = rw e refl in ground arith)
            | inr t ↦ k.rename from to _ (Rooted-Inside config from r) (Rooted-Inside config to t) (
                ensure_parent_directories-Confined os config P k to s (Rooted-Inside config to t) h)
          ]
        ])
  run_call-safe (rmdir fuel path) s h =
      resolved os config P k path (λ full. Ops.remove_dir_recursive os config fuel full s) s h
        (λ full r. remove_dir_recursive-Confined os config P k fuel full s r h)
  run_call-safe (open_path path create flags) s h = (open_path-safe path create flags s h).after
  run_call-safe (write_file flags path content) s h = write_file-safe flags path content s h

  -- Whatever is kept by the POSIX calls on paths under the root, and by `mkdir` of the directories that such a
  -- path names before its slashes, those above the root among them, is kept by any run of storage calls,
  -- whatever their paths are and whether they succeed, if no listed name has a slash: no call but a `mkdir` of
  -- a directory above the root leaves the card's directory, by `..`, by slashes or by a listed name.
  pub run_calls-confined : (cs : List Call) (s : os.State) → P s → P (run_calls os config cs s)
  run_calls-confined [] s h = h
  run_calls-confined (c ∷ cs) s h =
      run_calls-confined cs (run_call os config c s) (run_call-safe c s h)
