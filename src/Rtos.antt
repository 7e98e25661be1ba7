-- ===== src/Rtos.antt =====
-- src/freertos/semphr.h and src/freertos/task.h, the shims of the FreeRTOS calls.
pub mod Semaphore
pub mod Tokens
pub mod Mutex
pub mod Notify
pub mod Holder
