-- ===== src/Tests/Shims.antt =====
-- Instances of the theorems on the clock and on the FreeRTOS shims.
use crosspoint_simulator_ios.Base.{
  ℕ, ◌+◌, ◌*◌, ◌%◌, ◌<◌, ◌≡◌, ◌⊎◌, refl, true, List, [], ◌∷◌, none, some, arith, Bytes, length,
}
use crosspoint_simulator_ios.Clock.{UtcTime, format_time}
use crosspoint_simulator_ios.Clock.Table.{read_time}
use crosspoint_simulator_ios.Clock.Shown.{format_time-shows}
use crosspoint_simulator_ios.Rtos.Semaphore.{
  Event, count, step, run, created, deadline_of, take_round, give, after_round, wake, call,
}
use crosspoint_simulator_ios.Rtos.Tokens.{tokens_conserved}
use crosspoint_simulator_ios.Rtos.Mutex.{
  SimMutex, Phase, Step, new_mutex, lock, set_holder, count_up, count_down, clear_holder,
  get_mutex_holder,
}
use crosspoint_simulator_ios.Rtos.Holder.{Reach, holder_is_owner}

-- Half past eight in the evening UTC, shown in India: 5 hours and a half later.
abbrev evening : UtcTime
evening = record { hour = 20; minute = 30 }

format_time-shows_example :
    (text : Bytes) × (total : ℕ) × (format_time true evening 9 70 true ≡ some text)
    × (length text < 9)
    × (read_time text ≡ some total)
    × (total < 1440)
    × ((total + 720) % 1440 ≡ (20 * 60 + 30 + 70 * 15) % 1440)
format_time-shows_example = format_time-shows evening 9 70 true (omega arith)

-- Two threads wait, one for a second; a give lets one through, and the other's time runs out.
abbrev history : List Event
history =
    Event.called 1 1000
    ∷ Event.called 2 4294967295
    ∷ Event.given
    ∷ Event.woken 2
    ∷ Event.passed 1000
    ∷ Event.woken 1
    ∷ []

tokens_conserved_example :
    (run history created).granted
    ≡ (run history created).taken + count (run history created).available
tokens_conserved_example = tokens_conserved history

after_history :
    ((run history created).taken ≡ 1)
    × ((run history created).expired ≡ 1)
    × ((run history created).granted ≡ 1)
unfolding run step call wake after_round take_round give deadline_of
after_history = (refl, refl, refl)

-- Task 7 has taken the mutex and is about to leave `xSemaphoreGive`.
abbrev giving : SimMutex
giving = clear_holder (count_down (count_up (set_holder 7 (lock 7 new_mutex))))

giving-Reach : Reach giving
unfolding lock set_holder count_up count_down clear_holder
giving-Reach =
    let locked = Reach.next Reach.start (Step.locks 7 new_mutex refl refl) (omega arith) in
    let named = Reach.next locked (Step.sets_holder 7 _ refl refl) (omega arith) in
    let taken = Reach.next named (Step.counts_up 7 _ refl refl) (omega arith) in
    let counted = Reach.next taken (Step.counts_down 7 _ refl refl) (omega arith) in
    Reach.next counted (Step.clears_holder 7 _ refl refl) (omega arith)

holder_is_owner_example :
    ((get_mutex_holder giving ≡ none) ⊎ (get_mutex_holder giving ≡ giving.owner))
    × (giving.phase ≡ Phase.ready → get_mutex_holder giving ≡ giving.owner)
holder_is_owner_example = holder_is_owner giving giving-Reach
