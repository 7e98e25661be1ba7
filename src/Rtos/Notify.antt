-- ===== src/Rtos/Notify.antt =====
-- The task notifications of src/freertos/task.h, each call under the task's `std::mutex`.
use crosspoint_simulator_ios.Base.{
  ℕ, ◌+◌, ◌-◌, ◌%◌, Option, none, some, if◌then◌else◌, ltb, bit_and,
}

-- `xTaskNotify` and `xTaskNotifyGive` on the counter of 32 bits.
unfoldable pub notify : ℕ → ℕ
notify count = (count + 1) % 4294967296

-- `ulTaskNotifyTake` at a wake-up: the result and the counter, or `none` if the wait goes on.
unfoldable pub notify_take : ℕ → Option (ℕ × ℕ)
notify_take count = if ltb 0 count then some (1, count - 1) else none

-- `ulTaskNotifyValueClear`: the counter before and after; `~bits` is the complement in 32 bits.
unfoldable pub notify_value_clear : ℕ → ℕ → ℕ × ℕ
notify_value_clear count bits = (count, bit_and count (4294967295 - bits % 4294967296))
