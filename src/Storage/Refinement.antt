-- ===== src/Storage/Refinement.antt =====
-- The window of src/HalStorage.cpp keeps the contract of a file.
use crosspoint_simulator_ios.Base.{
  ℕ, ◌+◌, ◌-◌, ◌≤◌, ◌<◌, ◌≡◌, refl, sym, ap, ◌∙◌, subst, Bool, true, [], ◌++◌, some, arith, ltb,
  leb, Bytes, length, take, drop, length-take, length-drop, take-append, take-all, Bool-cases, inl,
  inr,
}
use crosspoint_simulator_ios.Storage.File
use crosspoint_simulator_ios.Storage.File.{Descriptor, Window, off_limit, off_gt}
use crosspoint_simulator_ios.Storage.Entry.{
  Reads, Seeks, IsFile, drop-take, drop-drop, plain, through,
}

module _ (d : Descriptor) (Valid : d.State → Type 0) (content : d.State → Bytes)
    (file : IsFile (plain d) Valid content) (start len : ℕ) (bound : start + len < off_limit) where
  abbrev pub window : Window
  window = record { windowed = true; start = start; length = len }

  -- The bytes of the entry.
  abbrev pub entry : d.State → Bytes
  entry s = take len (drop start (content s))

  -- The entry lies in the file, and the position in the entry or at its end.
  pub record Within (s : d.State) : Type 0 where
    pub valid : Valid s
    pub from : start ≤ d.tell s
    pub up_to : d.tell s ≤ start + len
    pub fits : start + len ≤ length (content s)

  entry-length : (s : d.State) → Within s → length (entry s) ≡ len
  entry-length s v =
      let l = length-take len (drop start (content s)) in
      let m = length-drop start (content s) in let f = v.fits in omega arith

  Within-moved :
      (s t : d.State)
      → Within s
      → Valid t
      → content t ≡ content s
      → start ≤ d.tell t
      → d.tell t ≤ start + len
      → Within t
  Within-moved s t v w e a b = record {
    valid = w;
    from = a;
    up_to = b;
    fits = subst (λ (z : Bytes). start + len ≤ length z) (sym e) v.fits;
  }

  through-Seeks :
      (n : ℕ) (s : d.State)
      → Within s
      → n ≤ length (entry s)
      → Seeks (through d window) Within entry n s
  unfolding File.seek_set File.seek_sum File.position
  through-Seeks n s v h =
      let l = entry-length s v in
      let f = v.fits in
      let plain_seek = file.seeks (start + n) s v.valid (omega arith) (omega arith) in
      let same : File.seek_set d window n s ≡ d.seek_set (start + n) s = ground arith in
      let moved =
        Within-moved s (d.seek_set (start + n) s).1 v plain_seek.still_valid (plain_seek.unchanged)
          (omega (arith, plain_seek.moved)) (omega (arith, plain_seek.moved)) in
      let (a, b, c, e) =
        subst
          (λ (r : Bool × d.State).
            (r.0 ≡ true) × Within r.1 × (d.tell r.1 - start ≡ n) × (entry r.1 ≡ entry s))
          (sym same)
          (
            plain_seek.result,
            moved,
            omega (arith, plain_seek.moved),
            ap (λ (z : Bytes). take len (drop start z)) plain_seek.unchanged,
          ) in
      record { result = a; still_valid = b; moved = c; unchanged = e }

  -- What the entry has behind the position is what the file has there, up to the entry's end.
  entry-behind :
      (s : d.State)
      → Within s
      → drop (d.tell s - start) (entry s)
        ≡ take (start + len - d.tell s) (drop (d.tell s) (content s))
  entry-behind s v =
      let a : len - (d.tell s - start) ≡ start + len - d.tell s = let f = v.from in omega arith in
      let b : start + (d.tell s - start) ≡ d.tell s = let f = v.from in omega arith in
      drop-take (d.tell s - start) len (drop start (content s))
      ∙ (rw (drop-drop (d.tell s - start) start (content s)) (rw (a, b) refl))

  -- A read of the file that stays in the entry is a read of the entry.
  read-inside :
      (n m : ℕ) (s : d.State)
      → Within s
      → m ≤ n
      → m ≤ start + len - d.tell s
      → (0 < n → d.tell s < start + len → 0 < m)
      → m < off_limit
      → File.read d window n s ≡ d.read m s
      → Reads (through d window) Within entry n s
  unfolding File.position
  read-inside n m s v small inside enough off same =
      let r = file.reads m s v.valid off in
      let f1 = v.from in
      let f2 = v.up_to in
      let f3 = v.fits in
      let el = entry-length s v in
      let moved =
        Within-moved s (d.read m s).1 v r.still_valid r.unchanged (omega (arith, r.moved))
          (omega (arith, r.moved, r.at_most)) in
      let left = start + len - d.tell s in
      let behind : drop (d.tell s - start) (entry s)
          ≡ r.bytes ++ take (left - length r.bytes) r.rest =
        entry-behind s v
        ∙ (rw r.split (
            take-append left r.bytes r.rest
            ∙ ap (λ (z : Bytes). z ++ take (left - length r.bytes) r.rest)
                (take-all left r.bytes (omega (arith, r.at_most))))) in
      let (a, b, c, e) =
        subst
          (λ (o : _ × d.State).
            (o.0 ≡ some r.bytes)
            × Within o.1
            × (d.tell o.1 - start ≡ d.tell s - start + length r.bytes)
            × (entry o.1 ≡ entry s))
          (sym same)
          (
            r.result,
            moved,
            omega (arith, r.moved),
            ap (λ (z : Bytes). take len (drop start z)) r.unchanged,
          ) in
      record {
        bytes = r.bytes;
        rest = take (left - length r.bytes) r.rest;
        result = a;
        split = behind;
        at_most = omega (arith, r.at_most);
        progress = λ p q. r.progress (enough p (omega arith)) (omega arith);
        still_valid = b;
        moved = c;
        unchanged = e;
      }

  through-Reads :
      (n : ℕ) (s : d.State) → Within s → n < off_limit → Reads (through d window) Within entry n s
  unfolding File.read File.position
  through-Reads n s v off = elim (Bool-cases (leb len (d.tell s - start))) [
    | inl end ↦
        let same : File.read d window n s ≡ (some [], s) = ground arith in
        let el = entry-length s v in
        let (a, b, c, e) =
          subst
            (λ (o : _ × d.State).
              (o.0 ≡ some [])
              × Within o.1
              × (d.tell o.1 - start ≡ d.tell s - start + 0)
              × (entry o.1 ≡ entry s))
            (sym same) (refl, v, omega arith, refl) in
        record {
          bytes = [];
          rest = drop (d.tell s - start) (entry s);
          result = a;
          split = refl;
          at_most = omega arith;
          progress = λ p q. absurd (ground arith);
          still_valid = b;
          moved = c;
          unchanged = e;
        }
    | inr more ↦
        let f1 = v.from in
        let f2 = v.up_to in
        elim (Bool-cases (ltb (len - (d.tell s - start)) n)) [
          | inl long ↦
              read-inside n (len - (d.tell s - start)) s v (ground arith) (omega arith)
                (λ p q. omega arith) (omega arith) (ground arith)
          | inr short ↦
              read-inside n n s v (omega arith) (ground arith) (λ p q. p) off (ground arith)
        ]
  ]

  -- An entry of a container that lies in the container's file is, through its window, a file whose contents
  -- are the entry's bytes, whatever the container holds around it: every seek within the entry and every
  -- read keep the contract that the whole file keeps, short reads included.
  pub through-IsFile : IsFile (through d window) Within entry
  through-IsFile = record {
    seeks = λ n s v h off. through-Seeks n s v h;
    reads = λ n s v off. through-Reads n s v off;
  }
