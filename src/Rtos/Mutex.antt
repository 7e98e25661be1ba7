-- ===== src/Rtos/Mutex.antt =====
-- The mutex of src/freertos/semphr.h over `std::recursive_mutex`, which one thread owns at a depth.
use crosspoint_simulator_ios.Base.{
  ℕ, ◌+◌, ◌-◌, ◌≡◌, ◌%◌, Bool, true, Option, none, some, if◌then◌else◌, ltb, ◌==◌,
}

-- Where the owner of the mutex is in its call: in none, or before a statement of `xSemaphoreTake` or
-- `xSemaphoreGive` that follows a change of the mutex or of its copies.
pub data Phase : Type 0 where
  ready locked named uncounted cleared : Phase

-- `SimMutex`: the library's mutex, and the copies of its owner and depth that other tasks may read between
-- any two statements of the owner; the copy of the depth has 16 bits.
pub record SimMutex : Type 0 where
  pub owner : Option ℕ
  pub depth : ℕ
  pub holder : Option ℕ
  pub hold_count : ℕ
  pub phase : Phase

abbrev pub new_mutex : SimMutex
new_mutex = record { owner = none; depth = 0; holder = none; hold_count = 0; phase = Phase.ready }

-- Whether `lock` by a task goes on at once.
abbrev pub may_lock : ℕ → Option ℕ → Bool
may_lock task none = true
may_lock task (some t) = t == task

-- The statements of `xSemaphoreTake` on a mutex: `lock`, the holder, the count.
unfoldable pub lock : ℕ → SimMutex → SimMutex
lock task m = record m { owner = some task; depth = m.depth + 1; phase = Phase.locked }

unfoldable pub set_holder : ℕ → SimMutex → SimMutex
set_holder task m = record m { holder = some task; phase = Phase.named }

unfoldable pub count_up : SimMutex → SimMutex
count_up m = record m { hold_count = (m.hold_count + 1) % 65536; phase = Phase.ready }

-- The statements of `xSemaphoreGive` on a mutex: the count, the holder, `unlock`.
unfoldable pub count_down : SimMutex → SimMutex
count_down m = record m {
  hold_count = if ltb 0 m.hold_count then m.hold_count - 1 else m.hold_count;
  phase = Phase.uncounted;
}

unfoldable pub clear_holder : SimMutex → SimMutex
clear_holder m = record m {
  holder = if m.hold_count == 0 then none else m.holder;
  phase = Phase.cleared;
}

unfoldable pub unlock : SimMutex → SimMutex
unlock m = record m {
  owner = if m.depth == 1 then none else m.owner;
  depth = m.depth - 1;
  phase = Phase.ready;
}

-- One statement of one task. A task that does not own the mutex waits at `lock`. The library leaves an
-- unlock by another task than the owner undefined, so only the owner gives.
pub data Step : SimMutex → SimMutex → Type 0 where
  locks :
      (task : ℕ) (m : SimMutex)
      → m.phase ≡ Phase.ready
      → may_lock task m.owner ≡ true
      → Step m (lock task m)
  sets_holder :
      (task : ℕ) (m : SimMutex)
      → m.phase ≡ Phase.locked
      → m.owner ≡ some task
      → Step m (set_holder task m)
  counts_up :
      (task : ℕ) (m : SimMutex) → m.phase ≡ Phase.named → m.owner ≡ some task → Step m (count_up m)
  counts_down :
      (task : ℕ) (m : SimMutex)
      → m.phase ≡ Phase.ready
      → m.owner ≡ some task
      → Step m (count_down m)
  clears_holder :
      (task : ℕ) (m : SimMutex)
      → m.phase ≡ Phase.uncounted
      → m.owner ≡ some task
      → Step m (clear_holder m)
  unlocks :
      (task : ℕ) (m : SimMutex) → m.phase ≡ Phase.cleared → m.owner ≡ some task → Step m (unlock m)

-- `xSemaphoreGetMutexHolder`
unfoldable pub get_mutex_holder : SimMutex → Option ℕ
get_mutex_holder m = m.holder

-- `xQueuePeek` on a mutex: `try_lock` also succeeds for the owner.
unfoldable pub queue_peek : ℕ → SimMutex → Bool
queue_peek task m = may_lock task m.owner
