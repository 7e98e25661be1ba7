-- ===== src/Tests/Script.antt =====
-- Instances of the theorems on the input script and on deep sleep.
use mathlib.Core.List.{Permᴰ}
use mathlib.Core.List.Permᴰ
use crosspoint_simulator_ios.Base.{
  ℕ, ◌+◌, ◌≡◌, refl, true, false, List, [], ◌∷◌, none, some, if◌then◌else◌, leb, ◌==◌, Bytes,
}
use crosspoint_simulator_ios.Base.Text.{codes}
use crosspoint_simulator_ios.Http.Head.{strtoull, strtoull_sign, skip_space, digits_value}
use crosspoint_simulator_ios.Gpio.State.{Env, Scancode, SyntheticEvent, scancode_to_button}
use crosspoint_simulator_ios.Gpio.Events.{Event}
use crosspoint_simulator_ios.Gpio.Schedule.{
  ScriptOps, uppercase, named_button, hold_ms, normalize, samples, key_events, keyed_events,
  touch_events, parse_touch_spec, swipe_spec, tap_spec, touch_spec, item_events, script_events,
  initialize_synthetic_events,
}
use crosspoint_simulator_ios.Gpio.Balance.{
  Control, takes, count, Balanced, initialize_synthetic_events-Balanced,
}
use crosspoint_simulator_ios.Gpio.Sleep.{
  SleepEnd, any_synthetic, clear_button_state, sleep_events, sleep_round, sleep_rounds,
  start_deep_sleep,
}
use crosspoint_simulator_ios.Gpio.Script.{process_synthetic_events, run_script}
use crosspoint_simulator_ios.Gpio.Wake.{SleepDone, start_deep_sleep-SleepDone}
use crosspoint_simulator_ios.Tests.Fixtures.{thousandths, env, gpio}

-- A sort by insertion.
abbrev insert : SyntheticEvent ℕ → List (SyntheticEvent ℕ) → List (SyntheticEvent ℕ)
insert e [] = e ∷ []
insert e (x ∷ xs) = let rest = insert e xs in if leb e.at_ms x.at_ms then e ∷ x ∷ xs else x ∷ rest

abbrev insertion_sort : List (SyntheticEvent ℕ) → List (SyntheticEvent ℕ)
insertion_sort [] = []
insertion_sort (x ∷ xs) = insert x (insertion_sort xs)

insert-Permᴰ : (e : SyntheticEvent ℕ) (xs : List (SyntheticEvent ℕ)) → Permᴰ (insert e xs) (e ∷ xs)
insert-Permᴰ e [] = Permᴰ.refl (e ∷ [])
insert-Permᴰ e (x ∷ xs) =
    elim (leb e.at_ms x.at_ms)
      as (λ b. Permᴰ (if b then e ∷ x ∷ xs else x ∷ insert e xs) (e ∷ x ∷ xs)) [
        | true ↦ Permᴰ.refl (e ∷ x ∷ xs)
        | false ↦ Permᴰ.trans (Permᴰ.cons refl (insert-Permᴰ e xs)) (Permᴰ.swap refl refl)
      ]

insertion_sort-Permᴰ : (xs : List (SyntheticEvent ℕ)) → Permᴰ (insertion_sort xs) xs
insertion_sort-Permᴰ [] = Permᴰ.nil
insertion_sort-Permᴰ (x ∷ xs) =
    Permᴰ.trans (insert-Permᴰ x (insertion_sort xs)) (Permᴰ.cons refl (insertion_sort-Permᴰ xs))

-- The text of every contact is read as the same coordinates.
abbrev ops : ScriptOps thousandths
ops = record {
  add = λ a b. a + b;
  le = leb;
  scan = λ n text. ((if n == 4 then 100 ∷ 200 ∷ 300 ∷ 400 ∷ [] else 100 ∷ 200 ∷ []), none);
  sort = insertion_sort;
}

abbrev script : Bytes
script = codes "300:enter:50;100:SWIPE:0.1,0.2,0.3,0.4;20:HOME;bad;"

script_contacts :
    count (takes Control.contact) (initialize_synthetic_events thousandths ops env (some script))
    ≡ 1
unfolding initialize_synthetic_events script_events item_events keyed_events touch_events samples
    parse_touch_spec swipe_spec tap_spec touch_spec normalize uppercase named_button key_events
    hold_ms strtoull strtoull_sign skip_space digits_value
script_contacts = refl

initialize_synthetic_events-Balanced_example :
    Balanced Control.contact (initialize_synthetic_events thousandths ops env (some script))
initialize_synthetic_events-Balanced_example =
    initialize_synthetic_events-Balanced thousandths ops insertion_sort-Permᴰ Control.contact env
      (some script)

abbrev sleep_polls : List (Env × List (Event ℕ))
sleep_polls = (env, []) ∷ (env, Event.key_down false Scancode.escape ∷ []) ∷ []

sleep_reboots : (start_deep_sleep thousandths sleep_polls gpio).0 ≡ some SleepEnd.reboots
unfolding start_deep_sleep sleep_rounds sleep_round sleep_events process_synthetic_events run_script
    any_synthetic clear_button_state scancode_to_button
sleep_reboots = refl

start_deep_sleep-SleepDone_example :
    SleepDone thousandths (start_deep_sleep thousandths sleep_polls gpio)
start_deep_sleep-SleepDone_example = start_deep_sleep-SleepDone thousandths sleep_polls gpio
