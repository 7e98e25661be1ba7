-- ===== src/Memory/Budget.antt =====
-- The accounts of src/HalMemory.cpp over every sequence of allocations and deletions, one after another.
use crosspoint_simulator_ios.Base.{
  ℕ, zero, suc, ◌+◌, ◌≤◌, ◌<◌, ◌^◌, ◌≡◌, refl, Bool, true, List, [], ◌∷◌, Option, none, some, arith,
  if◌then◌else◌, ltb, ◌&&◌, not, ◌==◌, Option-cases, inl, inr,
}
use crosspoint_simulator_ios.Memory.{
  Psram, allocate_psram, size_at, without, delete_psram, get_psram_heap,
}

-- One call of the firmware; a buffer that is deleted is alive or null.
pub data Step (m : Psram) : Psram → Type 0 where
  allocate : (host : Bool) (bytes : ℕ) → Step m (allocate_psram host bytes m).1
  delete : (buffer : Option ℕ) → Step m (delete_psram buffer m)

pub data Reach (m : Psram) : Psram → Type 0 where
  here : Reach m m
  next : {g h : Psram} → Reach m g → Step g h → Reach m h

abbrev pub sum : List ℕ → ℕ
sum [] = 0
sum (n ∷ ns) = n + sum ns

-- What is used is what is alive, within the total.
pub record Balanced (t : ℕ) (m : Psram) : Type 0 where
  pub total : m.total ≡ t
  pub used : m.used ≡ sum m.live
  pub within : m.used ≤ t

sum-without :
    (i : ℕ) (ns : List ℕ) {n : ℕ} → size_at i ns ≡ some n → sum ns ≡ n + sum (without i ns)
unfolding size_at without
sum-without i [] e = absurd (cc)
sum-without zero (m ∷ ns) e = ground (arith, e)
sum-without (suc i) (m ∷ ns) e = omega (arith, sum-without i ns e)

Step-Balanced : (t : ℕ) {m n : Psram} → t < 2 ^ 64 → Step m n → Balanced t m → Balanced t n
unfolding allocate_psram delete_psram
Step-Balanced t {m = m} lt (allocate host bytes) b = record {
  total = ground (arith, b.total);
  used = ground (arith, b.total, b.used, b.within);
  within = ground (arith, b.total, b.used, b.within);
}
Step-Balanced t {m = m} lt (delete none) b = b
Step-Balanced t {m = m} lt (delete (some i)) b = elim (Option-cases (size_at i m.live)) [
  | inl dead ↦ rw (delete_psram, dead) b
  | inr (bytes, alive) ↦
      let s = sum-without i m.live alive in
      rw (delete_psram, alive)
        (record {
          total = b.total;
          used = omega (arith, b.used, b.within, s);
          within = omega (arith, b.used, b.within, s);
        })
]

Reach-Balanced : (t : ℕ) {m n : Psram} → t < 2 ^ 64 → Balanced t m → Reach m n → Balanced t n
Reach-Balanced t lt b here = b
Reach-Balanced t lt b (next r s) = Step-Balanced t lt s (Reach-Balanced t lt b r)

-- From no live buffer, after any calls one after another, the free bytes that `getPsramHeap` reports and
-- the sizes of the live buffers add up to the total, and an allocation that the host grants succeeds
-- exactly if there is a PSRAM and the free bytes suffice.
pub psram_budget :
    (t bytes : ℕ) {m : Psram}
    → t < 2 ^ 64
    → Reach (record { total = t; used = 0; live = [] }) m
    → let free = (get_psram_heap m).free_bytes in
      (free + sum m.live ≡ t)
      × ((allocate_psram true bytes m).0
          ≡ (if not (t == 0) && not (ltb free bytes) then some bytes else none))
unfolding get_psram_heap allocate_psram
psram_budget t bytes {m} lt r =
    let b = Reach-Balanced t lt (record { total = refl; used = refl; within = omega arith }) r in
    ground (arith, b.total, b.used, b.within)
