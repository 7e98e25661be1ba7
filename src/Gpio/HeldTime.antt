-- ===== src/Gpio/HeldTime.antt =====
-- `HalGPIO::getHeldTime` of src/HalGPIO.cpp over all buttons.
use crosspoint_simulator_ios.Base.{
  ℕ, zero, suc, ◌≤◌, ◌<◌, ◌≡◌, refl, ◌&&◌, ◌||◌, ◌⊎◌, inl, inr, arith, if◌then◌else◌, ltb,
  Bool-cases,
}
use crosspoint_simulator_ios.Base.Words.{sub64}
use crosspoint_simulator_ios.Gpio.State.{Env, Gpio, button_scancode, num_buttons}
use crosspoint_simulator_ios.Gpio.Query.{max_held, get_held_time}

module _ {F : Type 0} where
  -- How long button i has been held: 0 if it is up or was never pressed.
  abbrev pub held_by : Env → Gpio F → ℕ → ℕ
  held_by env g i =
      if (env.keyboard (button_scancode i) || g.synthetic_down i) && ltb 0 (g.press_time i)
      then sub64 env.ticks (g.press_time i)
      else 0

  record Longest (env : Env) (g : Gpio F) (n : ℕ) : Type 0 where
    above : (i : ℕ) → i < n → held_by env g i ≤ max_held env g n
    attained : (max_held env g n ≡ 0) ⊎ ((j : ℕ) × (j < n) × (max_held env g n ≡ held_by env g j))

  max_held-Longest : (env : Env) (g : Gpio F) (n : ℕ) → Longest env g n
  unfolding max_held
  max_held-Longest env g zero = record { above = λ i h. absurd (omega arith); attained = inl refl }
  max_held-Longest env g (suc n) =
      let m = max_held-Longest env g n in
      let held = sub64 env.ticks (g.press_time n) in
      elim (Bool-cases (
        (env.keyboard (button_scancode n) || g.synthetic_down n)
        && ltb 0 (g.press_time n)
        && ltb (max_held env g n) held)) [
          | inl more ↦ record {
            above = λ i h. ground (arith, m.above i, more);
            attained = inr (n, omega arith, ground (arith, more));
          }
          | inr less ↦ record {
            above = λ i h. ground (arith, m.above i, less);
            attained = rw less (elim m.attained [
              | inl z ↦ inl z
              | inr (j, lt, e) ↦ inr (j, omega (arith, lt), e)
            ]);
          }
        ]

  -- `getHeldTime` is at least the time that any button has been held, and it is 0 or the time of one of
  -- the buttons.
  pub get_held_time-max :
      (env : Env) (g : Gpio F) (i : ℕ)
      → i < num_buttons
      → (held_by env g i ≤ get_held_time env g)
        × ((get_held_time env g ≡ 0)
            ⊎ ((j : ℕ) × (j < num_buttons) × (get_held_time env g ≡ held_by env g j)))
  unfolding get_held_time
  get_held_time-max env g i h =
      let m = max_held-Longest env g num_buttons in (m.above i h, m.attained)
