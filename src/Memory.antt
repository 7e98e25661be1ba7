-- ===== src/Memory.antt =====
-- src/HalMemory.cpp: the budget of simulated PSRAM.
pub mod Budget
use crosspoint_simulator_ios.Base.{
  ℕ, zero, suc, ◌+◌, ◌-◌, Bool, true, false, ◌&&◌, ◌||◌, List, [], ◌∷◌, Option, none, some,
  if◌then◌else◌, ltb, ◌==◌, min,
}
use crosspoint_simulator_ios.Base.Words.{u64, sub64}

-- `psramTotal()`, `psramUsed`, and the sizes in front of the buffers that are alive, in any order.
pub record Psram : Type 0 where
  pub total : ℕ
  pub used : ℕ
  pub live : List ℕ

-- `HalMemory::allocatePsram`; `host` is whether the host's `new` succeeds.
unfoldable pub allocate_psram : Bool → ℕ → Psram → Option ℕ × Psram
allocate_psram host bytes m =
    if (m.total == 0) || ltb (m.total - min m.used m.total) bytes
    then (none, m)
    else if host
    then (some bytes, record m { used = u64 (m.used + bytes); live = bytes ∷ m.live })
    else (none, m)

-- The size of the buffer number i that is alive.
unfoldable pub size_at : ℕ → List ℕ → Option ℕ
size_at i [] = none
size_at zero (n ∷ ns) = some n
size_at (suc i) (n ∷ ns) = size_at i ns

unfoldable pub without : ℕ → List ℕ → List ℕ
without i [] = []
without zero (n ∷ ns) = ns
without (suc i) (n ∷ ns) = n ∷ without i ns

-- `HalMemory::PsramDeleter` on the buffer number i; `none` is the null buffer.
unfoldable pub delete_psram : Option ℕ → Psram → Psram
delete_psram none m = m
delete_psram (some i) m = elim (size_at i m.live) [
  | none ↦ m
  | some bytes ↦ record m { used = sub64 m.used bytes; live = without i m.live }
]

-- `HeapStats`
pub record HeapStats : Type 0 where
  pub free_bytes : ℕ
  pub total_bytes : ℕ
  pub min_free_bytes : ℕ
  pub largest_block_bytes : ℕ

-- `HalMemory::getPsramHeap`
unfoldable pub get_psram_heap : Psram → HeapStats
get_psram_heap m =
    let free = if ltb m.used m.total then m.total - m.used else 0 in
    record {
      free_bytes = free;
      total_bytes = m.total;
      min_free_bytes = free;
      largest_block_bytes = free;
    }
