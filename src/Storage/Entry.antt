-- ===== src/Storage/Entry.antt =====
-- An entry of a container, read through a window, is a file of its own: the contract of a file, and that a
-- window of src/HalStorage.cpp keeps it.
use crosspoint_simulator_ios.Base.{
  ℕ, zero, suc, ◌+◌, ◌-◌, ◌≤◌, ◌<◌, ◌≡◌, refl, sym, Bool, true, List, [], ◌∷◌, ◌++◌, Option, some,
  arith, Bytes, length, take, drop, take-nil,
}
use crosspoint_simulator_ios.Storage.File
use crosspoint_simulator_ios.Storage.File.{Descriptor, Window, off_limit}

-- What a user of a file calls.
pub record FileOps : Type 1 where
  pub State : Type 0
  pub seek : ℕ → State → Bool × State
  pub tell : State → ℕ
  pub read : ℕ → State → Option Bytes × State

-- What a read of at most n bytes does to a file with these contents: it gives a front of what is behind the
-- position, which is not empty unless nothing was asked for or nothing is left, and moves the position
-- behind it.
pub record Reads (f : FileOps) (Valid : f.State → Type 0) (content : f.State → Bytes) (n : ℕ)
    (s : f.State) : Type 0 where
  pub bytes : Bytes
  pub rest : Bytes
  pub result : (f.read n s).0 ≡ some bytes
  pub split : drop (f.tell s) (content s) ≡ bytes ++ rest
  pub at_most : length bytes ≤ n
  pub progress : 0 < n → f.tell s < length (content s) → 0 < length bytes
  pub still_valid : Valid (f.read n s).1
  pub moved : f.tell (f.read n s).1 ≡ f.tell s + length bytes
  pub unchanged : content (f.read n s).1 ≡ content s

pub record Seeks (f : FileOps) (Valid : f.State → Type 0) (content : f.State → Bytes) (n : ℕ)
    (s : f.State) : Type 0 where
  pub result : (f.seek n s).0 ≡ true
  pub still_valid : Valid (f.seek n s).1
  pub moved : f.tell (f.seek n s).1 ≡ n
  pub unchanged : content (f.seek n s).1 ≡ content s

-- The contract of a file: where it is valid it can be sought to any place within, and read.
pub record IsFile (f : FileOps) (Valid : f.State → Type 0) (content : f.State → Bytes)
    : Type 0 where
  pub seeks :
      (n : ℕ) (s : f.State)
      → Valid s
      → n ≤ length (content s)
      → n < off_limit
      → Seeks f Valid content n s
  pub reads : (n : ℕ) (s : f.State) → Valid s → n < off_limit → Reads f Valid content n s

pub drop-take : {A : Type 0} (k n : ℕ) (xs : List A) → drop k (take n xs) ≡ take (n - k) (drop k xs)
drop-take zero n xs = let e : n - 0 ≡ n = omega arith in rw e refl
drop-take (suc k) zero xs = let e : 0 - suc k ≡ 0 = omega arith in rw e refl
drop-take (suc k) (suc n) [] = sym (take-nil (suc n - suc k))
drop-take (suc k) (suc n) (x ∷ xs) =
    let e : suc n - suc k ≡ n - k = omega arith in rw e (drop-take k n xs)

pub drop-drop : {A : Type 0} (k n : ℕ) (xs : List A) → drop k (drop n xs) ≡ drop (n + k) xs
drop-drop k zero xs = let e : 0 + k ≡ k = omega arith in rw e refl
drop-drop zero (suc n) [] = let e : suc n + 0 ≡ suc n = omega arith in rw e refl
drop-drop (suc k) (suc n) [] = let e : suc n + suc k ≡ suc (n + suc k) = omega arith in rw e refl
drop-drop k (suc n) (x ∷ xs) =
    let e : suc n + k ≡ suc (n + k) = omega arith in rw e (drop-drop k n xs)

-- A descriptor as it is, and through a window.
abbrev pub plain : Descriptor → FileOps
plain d = record { State = d.State; seek = d.seek_set; tell = d.tell; read = d.read }

abbrev pub through : Descriptor → Window → FileOps
through d w = record {
  State = d.State;
  seek = File.seek_set d w;
  tell = File.position d w;
  read = File.read d w;
}
