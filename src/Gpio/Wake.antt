-- ===== src/Gpio/Wake.antt =====
-- The end of a deep sleep in src/HalGPIO.cpp.
use crosspoint_simulator_ios.Base.{
  ℕ, ◌<◌, ◌≡◌, refl, Bool, true, false, List, [], ◌∷◌, Option, none, some, arith, if◌then◌else◌,
}
use crosspoint_simulator_ios.Gpio.Floats.{FloatOps}
use crosspoint_simulator_ios.Gpio.State.{Env, Gpio, num_buttons}
use crosspoint_simulator_ios.Gpio.Script.{process_synthetic_events}
use crosspoint_simulator_ios.Gpio.Events.{Event}
use crosspoint_simulator_ios.Gpio.Sleep.{
  SleepEnd, SleepEnd.quits, SleepEnd.reboots, no_touch, clear_button_state, any_synthetic,
  sleep_events, sleep_round, sleep_rounds, start_deep_sleep,
}

module _ (fl : FloatOps) where
  -- Nothing of an input is left: no button, no contact, and no home key.
  pub record IsIdle (g : Gpio fl.F) : Type 0 where
    pub buttons :
        (i : ℕ)
        → i < num_buttons
        → (g.pressed i ≡ false)
          × (g.released i ≡ false)
          × (g.press_time i ≡ 0)
          × (g.synthetic_down i ≡ false)
    pub contact : g.touch ≡ no_touch fl
    pub queue : g.live_touch ≡ []
    pub home : g.home.down ≡ false

  clear_button_state-IsIdle : (g : Gpio fl.F) → IsIdle (clear_button_state fl g)
  unfolding clear_button_state
  clear_button_state-IsIdle g = record {
    buttons = λ i h. (ground arith, ground arith, ground arith, ground arith);
    contact = refl;
    queue = refl;
    home = refl;
  }

  clear_button_state-any_synthetic :
      (g : Gpio fl.F) → any_synthetic fl num_buttons (clear_button_state fl g) ≡ false
  unfolding clear_button_state any_synthetic
  clear_button_state-any_synthetic g = refl

  -- What a sleep leaves behind, by the way that it ends.
  unfoldable pub SleepDone : Option SleepEnd × Gpio fl.F → Type 0
  SleepDone (none, g) = any_synthetic fl num_buttons g ≡ false
  SleepDone (some quits, g) = g.quit_requested ≡ true
  SleepDone (some reboots, g) = IsIdle g

  poll-SleepDone :
      (polled : Option SleepEnd) (g : Gpio fl.F)
      → any_synthetic fl num_buttons g ≡ false
      → SleepDone (elim polled [
        | none ↦ (none, g)
        | some quits ↦ (some quits, record g { quit_requested = true })
        | some reboots ↦ (some reboots, clear_button_state fl g)
      ])
  unfolding SleepDone
  poll-SleepDone none g free = free
  poll-SleepDone (some quits) g free = refl
  poll-SleepDone (some reboots) g free = clear_button_state-IsIdle g

  if-SleepDone :
      (b : Bool) (r s : Option SleepEnd × Gpio fl.F)
      → (b ≡ true → SleepDone r)
      → (b ≡ false → SleepDone s)
      → SleepDone (if b then r else s)
  if-SleepDone true r s p q = p refl
  if-SleepDone false r s p q = q refl

  next-SleepDone :
      (r rest : Option SleepEnd × Gpio fl.F)
      → SleepDone r
      → (any_synthetic fl num_buttons r.1 ≡ false → SleepDone rest)
      → SleepDone (elim r.0 [ none ↦ rest | some e ↦ r ])
  unfolding SleepDone
  next-SleepDone (none, g) rest done go = go done
  next-SleepDone (some e, g) rest done go = done

  sleep_round-SleepDone :
      (env : Env) (es : List (Event fl.F)) (g : Gpio fl.F) → SleepDone (sleep_round fl env es g)
  unfolding sleep_round SleepDone
  sleep_round-SleepDone env es g =
      let scripted = process_synthetic_events fl env g in
      if-SleepDone scripted.quit_requested _ _ (λ quit. quit)
        (λ on.
          if-SleepDone (any_synthetic fl num_buttons scripted) _ _
            (λ held. clear_button_state-IsIdle scripted)
            (λ free. poll-SleepDone (sleep_events fl es) scripted free))

  sleep_rounds-SleepDone :
      (rounds : List (Env × List (Event fl.F))) (g : Gpio fl.F)
      → any_synthetic fl num_buttons g ≡ false
      → SleepDone (sleep_rounds fl rounds g)
  unfolding sleep_rounds SleepDone
  sleep_rounds-SleepDone [] g free = free
  sleep_rounds-SleepDone ((env, es) ∷ rounds) g free =
      let r = sleep_round fl env es g in
      next-SleepDone r (sleep_rounds fl rounds r.1) (sleep_round-SleepDone env es g)
        (sleep_rounds-SleepDone rounds r.1)

  -- A deep sleep that quits has set the request to quit; one that starts the simulator again leaves no
  -- button, no contact and no home key pressed; one that goes on has no button held by the script.
  pub start_deep_sleep-SleepDone :
      (rounds : List (Env × List (Event fl.F))) (g : Gpio fl.F)
      → SleepDone (start_deep_sleep fl rounds g)
  unfolding start_deep_sleep
  start_deep_sleep-SleepDone rounds g =
      sleep_rounds-SleepDone rounds (clear_button_state fl g) (clear_button_state-any_synthetic g)
