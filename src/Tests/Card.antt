-- ===== src/Tests/Card.antt =====
-- Instances of the theorems on the storage: a file in memory, and a card that logs what is changed.
use crosspoint_simulator_ios.Base.{
  ℕ, zero, suc, ◌+◌, ◌-◌, ◌≤◌, ◌≡◌, refl, sym, min, true, false, List, [], ◌∷◌, none, some, arith,
  Bytes, All, length, take, drop, take-append-drop, length-take, length-drop,
}
use crosspoint_simulator_ios.Base.Text.{codes}
use crosspoint_simulator_ios.Web.PathLaws.{no_slash}
use crosspoint_simulator_ios.Storage.Paths.{
  Configuration, configured_storage_root, unsafe_scan, contains_unsafe_segment, drop_slashes,
  drop_back_slashes, trim_root, resolve_storage_path, fronts, ancestors,
}
use crosspoint_simulator_ios.Web.Path.{split_last}
use crosspoint_simulator_ios.Storage.Ops.{
  Posix, Made, make_all, make_path, ensure_parent_directories, remove, rename, remove_dir_recursive,
  remove_entries, rmdir, open_path, write_file,
}
use crosspoint_simulator_ios.Storage.Inside.{Inside}
use crosspoint_simulator_ios.Storage.Confined.{Confined}
use crosspoint_simulator_ios.Storage.Safety.{Call, run_calls, run_calls-confined}
use crosspoint_simulator_ios.Storage.File.{Descriptor, Offset}
use crosspoint_simulator_ios.Storage.Entry.{IsFile, plain, through}
use crosspoint_simulator_ios.Storage.Refinement.{window, entry, Within, through-IsFile}

abbrev stored : Bytes
stored = codes "headENTRYtail"

-- A descriptor on it, whose state is the position, and whose reads give four bytes at most.
abbrev in_memory : Descriptor
in_memory = record {
  State = ℕ;
  seek_set = λ n s. (true, n);
  seek_cur = λ o s. elim o [ Offset.ahead n ↦ (true, s + n) | Offset.back n ↦ (true, s - n) ];
  seek_end = λ s. (13, 13);
  tell = λ s. s;
  read =
      λ n s. (some (take (min n 4) (drop s stored)), s + length (take (min n 4) (drop s stored)));
}

abbrev InMemory : ℕ → Type 0
InMemory s = s ≤ 13

in_memory-IsFile : IsFile (plain in_memory) InMemory (λ s. stored)
in_memory-IsFile = record {
  seeks = λ n s v h off. record { result = refl; still_valid = h; moved = refl; unchanged = refl };
  reads = λ n s v off. record {
    bytes = take (min n 4) (drop s stored);
    rest = drop (min n 4) (drop s stored);
    result = refl;
    split = sym (take-append-drop (min n 4) (drop s stored));
    at_most = omega (arith, length-take (min n 4) (drop s stored));
    progress = λ p q. omega (arith, length-take (min n 4) (drop s stored), length-drop s stored);
    still_valid = omega (arith, length-take (min n 4) (drop s stored), length-drop s stored);
    moved = refl;
    unchanged = refl;
  };
}

through-IsFile_example :
    IsFile
      (through in_memory
        (window in_memory InMemory (λ s. stored) in_memory-IsFile 4 5 (omega arith)))
      (Within in_memory InMemory (λ s. stored) in_memory-IsFile 4 5 (omega arith))
      (entry in_memory InMemory (λ s. stored) in_memory-IsFile 4 5 (omega arith))
through-IsFile_example =
    through-IsFile in_memory InMemory (λ s. stored) in_memory-IsFile 4 5 (omega arith)

abbrev card : Configuration
card = record { simulator_sd = some (codes "/card/"); emulator_sd = none; documents = none }

-- One directory with two entries, and a log of the paths that are opened, renamed or removed.
abbrev logging : Posix
logging = record {
  State = List Bytes;
  mkdir = λ p s. (Made.created, s);
  stat = λ p s. some false;
  open_dir = λ p s. true;
  next_entry = λ p i s. elim i [
    | zero ↦ some (codes ".hidden")
    | suc j ↦ elim j [ zero ↦ some (codes "book") | suc m ↦ none ]
  ];
  open_file = λ p flags s. (some 3, p ∷ s);
  write = λ fd content s. s;
  rename = λ p q s. (true, p ∷ q ∷ s);
  remove = λ p s. (true, p ∷ s);
  rmdir = λ p s. (true, p ∷ s);
}

logging-Confined : Confined logging card (All (Inside card))
logging-Confined = record {
  mkdir = λ p full s f i h. h;
  open_file = λ p flags s i h. (i, h);
  write = λ p flags fd content s i e h. (i, h);
  rename = λ p q s i j h. (i, (j, h));
  remove = λ p s i h. (i, h);
  rmdir = λ p s i h. (i, h);
  names = λ p i s name e. names_plain i name e;
}
  where
    names_plain :
        (i : ℕ) (name : Bytes) → logging.next_entry [] i [] ≡ some name → no_slash name ≡ true
    names_plain zero name e = ground arith
    names_plain (suc zero) name e = ground arith
    names_plain (suc (suc j)) name e = absurd (cc)

abbrev calls : List Call
calls =
    Call.remove (some (codes "//a/../b"))
    ∷ Call.rmdir 9 (some (codes "/old"))
    ∷ Call.rename (some (codes "x")) none
    ∷ Call.write_file 577 (some (codes "d/e/f")) (codes "text")
    ∷ []

run_calls-confined_example : All (Inside card) (run_calls logging card calls [])
run_calls-confined_example =
    run_calls-confined logging card (All (Inside card)) logging-Confined calls [] tt

-- What these calls touch.
touched :
    run_calls logging card calls []
    ≡ codes "/card/d/e/f"
      ∷ codes "/card/x"
      ∷ codes "/card"
      ∷ codes "/card/old"
      ∷ codes "/card/old/book"
      ∷ []
unfolding write_file open_path resolve_storage_path contains_unsafe_segment unsafe_scan drop_slashes
    trim_root configured_storage_root drop_back_slashes ensure_parent_directories split_last
    make_path make_all ancestors fronts rename rmdir remove remove_dir_recursive remove_entries
touched = refl
