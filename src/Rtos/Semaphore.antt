-- ===== src/Rtos/Semaphore.antt =====
-- The binary semaphore of src/freertos/semphr.h and the threads that wait for it. Each call holds the
-- semaphore's `std::mutex` while it works, so calls are single steps; a wait is a call and then its wake-ups,
-- at any of which `condition_variable` tests the predicate.
use crosspoint_simulator_ios.Base.{
  ℕ, ◌+◌, ◌*◌, Bool, true, false, not, List, [], ◌∷◌, Option, none, some, if◌then◌else◌, leb, ◌==◌,
  update,
}

-- `portMAX_DELAY` and `portTICK_PERIOD_MS`
abbrev pub port_max_delay : ℕ
port_max_delay = 4294967295

abbrev pub port_tick_period_ms : ℕ
port_tick_period_ms = 1

-- When the wait of `xSemaphoreTake` ends at the latest, in milliseconds; `none` is never.
unfoldable pub deadline_of : (ticks now : ℕ) → Option ℕ
deadline_of ticks now =
    if ticks == port_max_delay then none else some (now + ticks * port_tick_period_ms)

-- One test of the predicate in `xSemaphoreTake`: the result and whether a token is left, or `none` if
-- the wait goes on.
unfoldable pub take_round : Option ℕ → (now : ℕ) → (available : Bool) → Option (Bool × Bool)
take_round deadline now true = some (true, false)
take_round none now false = none
take_round (some d) now false = if leb d now then some (false, false) else none

-- `xSemaphoreGive`: what it returns, and whether a token is there.
unfoldable pub give : (available : Bool) → Bool × Bool
give available = (not available, true)

-- `xQueuePeek`
unfoldable pub queue_peek : (available : Bool) → Bool
queue_peek available = available

-- The semaphore, the clock, and the threads: a thread that waits has its deadline. `granted` counts the gives
-- that returned pdTRUE, `taken` the takes that did, and `expired` those that returned pdFALSE.
pub record System : Type 0 where
  pub available : Bool
  pub now : ℕ
  pub waiting : ℕ → Option (Option ℕ)
  pub granted : ℕ
  pub taken : ℕ
  pub expired : ℕ

-- What can happen next: a give from any thread, a thread's call of `xSemaphoreTake`, a wake-up of a thread that
-- waits, spurious or not, and the passing of time.
pub data Event : Type 0 where
  given : Event
  called : (thread ticks : ℕ) → Event
  woken : (thread : ℕ) → Event
  passed : (ms : ℕ) → Event

abbrev pub count : Bool → ℕ
count true = 1
count false = 0

-- The state behind a test of the predicate.
unfoldable pub after_round : ℕ → Option (Bool × Bool) → System → System
after_round t none s = s
after_round t (some (true, available)) s = record s {
  available = available;
  waiting = update s.waiting t none;
  taken = s.taken + 1;
}
after_round t (some (false, available)) s = record s {
  available = available;
  waiting = update s.waiting t none;
  expired = s.expired + 1;
}

unfoldable pub wake : ℕ → Option (Option ℕ) → System → System
wake t none s = s
wake t (some deadline) s = after_round t (take_round deadline s.now s.available) s

-- `xSemaphoreTake` up to its first test: a thread that waits already makes no call.
unfoldable pub call : ℕ → ℕ → Option (Option ℕ) → System → System
call t ticks (some deadline) s = s
call t ticks none s =
    let deadline = deadline_of ticks s.now in
    wake t (some deadline) (record s { waiting = update s.waiting t (some deadline) })

unfoldable pub step : Event → System → System
step given s =
    let r = give s.available in record s { available = r.1; granted = s.granted + count r.0 }
step (called t ticks) s = call t ticks (s.waiting t) s
step (woken t) s = wake t (s.waiting t) s
step (passed ms) s = record s { now = s.now + ms }

unfoldable pub run : List Event → System → System
run [] s = s
run (e ∷ es) s = run es (step e s)

-- `xSemaphoreCreateBinary`, with nobody waiting.
abbrev pub created : System
created = record {
  available = false;
  now = 0;
  waiting = λ t. none;
  granted = 0;
  taken = 0;
  expired = 0;
}
