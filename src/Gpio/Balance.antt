-- ===== src/Gpio/Balance.antt =====
-- The input script of src/HalGPIO.cpp lets go of what it holds.
use mathlib.Core.List.{Permᴰ}
use crosspoint_simulator_ios.Base.{
  ℕ, zero, suc, ◌+◌, ◌≡◌, refl, ◌∙◌, Bool, true, false, List, [], ◌∷◌, ◌++◌, Option, none, some,
  arith, if◌then◌else◌, ◌==◌, Bytes,
}
use crosspoint_simulator_ios.Base.Search.{split_at}
use crosspoint_simulator_ios.Http.Head.{strtoull}
use crosspoint_simulator_ios.Gpio.Floats.{FloatOps}
use crosspoint_simulator_ios.Gpio.State.{Env, SyntheticAction, SyntheticEvent}
use crosspoint_simulator_ios.Gpio.Schedule.{
  ScriptOps, TouchSpec, uppercase, named_button, is_touch, event, hold_ms, parse_touch_spec,
  samples, touch_events, key_events, keyed_events, item_events, script_events,
  initialize_synthetic_events,
}

-- What an action of a script holds and lets go of.
pub data Control : Type 0 where
  key : ℕ → Control
  home : Control
  contact : Control

module _ {F : Type 0} where
  -- 1 if the action takes hold of the control. Sleep presses the power button, which is number 6.
  abbrev pub takes : Control → SyntheticAction F → ℕ
  takes (Control.key i) (SyntheticAction.key_down j) = if i == j then 1 else 0
  takes (Control.key i) SyntheticAction.sleep = if i == 6 then 1 else 0
  takes Control.home SyntheticAction.home_down = 1
  takes Control.contact (SyntheticAction.touch_down x y) = 1
  takes _ _ = 0

  -- 1 if the action lets go of the control.
  abbrev pub lets_go : Control → SyntheticAction F → ℕ
  lets_go (Control.key i) (SyntheticAction.key_up j) = if i == j then 1 else 0
  lets_go Control.home SyntheticAction.home_up = 1
  lets_go Control.contact (SyntheticAction.touch_up x y) = 1
  lets_go _ _ = 0

  -- 1 if the action is a sleep and the control the power button.
  abbrev pub sleeps : Control → SyntheticAction F → ℕ
  sleeps (Control.key i) SyntheticAction.sleep = if i == 6 then 1 else 0
  sleeps _ _ = 0

  abbrev pub count : (SyntheticAction F → ℕ) → List (SyntheticEvent F) → ℕ
  count w [] = 0
  count w (e ∷ es) = w e.action + count w es

  count-append :
      (w : SyntheticAction F → ℕ) (xs ys : List (SyntheticEvent F))
      → count w (xs ++ ys) ≡ count w xs + count w ys
  count-append w [] ys = omega arith
  count-append w (a ∷ xs) ys = rw (count-append w xs ys) (omega arith)

  count-Permᴰ :
      (w : SyntheticAction F → ℕ) {xs ys : List (SyntheticEvent F)}
      → Permᴰ xs ys
      → count w xs ≡ count w ys
  count-Permᴰ w Permᴰ.nil = refl
  count-Permᴰ w (Permᴰ.cons e p) = rw (e, count-Permᴰ w p) refl
  count-Permᴰ w (Permᴰ.swap e f) = rw (e, f) (omega arith)
  count-Permᴰ w (Permᴰ.trans p q) = count-Permᴰ w p ∙ count-Permᴰ w q

  -- As many actions take hold of the control as let go of it, and one more for each sleep if it is the
  -- power button.
  pub record Balanced (c : Control) (es : List (SyntheticEvent F)) : Type 0 where
    pub balance : count (takes c) es ≡ count (lets_go c) es + count (sleeps c) es

  if-Balanced :
      (c : Control) (b : Bool) {xs ys : List (SyntheticEvent F)}
      → Balanced c xs
      → Balanced c ys
      → Balanced c (if b then xs else ys)
  if-Balanced c true p q = p
  if-Balanced c false p q = q

  Balanced-append :
      (c : Control) (xs ys : List (SyntheticEvent F))
      → Balanced c xs
      → Balanced c ys
      → Balanced c (xs ++ ys)
  Balanced-append c xs ys p q = record {
    balance =
        rw
          (
            count-append (takes c) xs ys,
            count-append (lets_go c) xs ys,
            count-append (sleeps c) xs ys,
          )
          (omega (arith, p.balance, q.balance));
  }

module _ (fl : FloatOps) (ops : ScriptOps fl) where
  -- A swipe's samples neither take hold nor let go.
  samples-Balanced :
      (c : Control) (left i at : ℕ) (s : TouchSpec fl.F) → Balanced c (samples fl ops left i at s)
  unfolding samples
  samples-Balanced c zero i at s = record { balance = refl }
  samples-Balanced (Control.key j) (suc left) i at s = record {
    balance = omega (arith, (samples-Balanced (Control.key j) left (i + 1) at s).balance);
  }
  samples-Balanced Control.home (suc left) i at s = record {
    balance = omega (arith, (samples-Balanced Control.home left (i + 1) at s).balance);
  }
  samples-Balanced Control.contact (suc left) i at s = record {
    balance = omega (arith, (samples-Balanced Control.contact left (i + 1) at s).balance);
  }

  -- A press, what is balanced, and a release.
  contact-Balanced :
      (c : Control) (down up : ℕ) (x y x' y' : fl.F) (middle : List (SyntheticEvent fl.F))
      → Balanced c middle
      → Balanced c (
          event fl ops down (SyntheticAction.touch_down x y)
          ∷ (middle ++ (event fl ops up (SyntheticAction.touch_up x' y') ∷ [])))
  contact-Balanced c down up x y x' y' middle m =
      let last : List (SyntheticEvent fl.F) =
        event fl ops up (SyntheticAction.touch_up x' y') ∷ [] in
      let t = count-append (takes c) middle last in
      let l = count-append (lets_go c) middle last in
      let z = count-append (sleeps c) middle last in
      record { balance = rw (t, l, z) (ends c m.balance) }
    where
      ends :
          (c : Control)
          → count (takes c) middle ≡ count (lets_go c) middle + count (sleeps c) middle
          → takes c (SyntheticAction.touch_down x y)
              + (count (takes c) middle + (takes c (SyntheticAction.touch_up x' y') + 0))
            ≡ lets_go c (SyntheticAction.touch_down x y)
              + (count (lets_go c) middle + (lets_go c (SyntheticAction.touch_up x' y') + 0))
              + (sleeps c (SyntheticAction.touch_down x y)
                  + (count (sleeps c) middle + (sleeps c (SyntheticAction.touch_up x' y') + 0)))
      ends (Control.key i) h = omega (arith, h)
      ends Control.home h = omega (arith, h)
      ends Control.contact h = omega (arith, h)

  touch_events-Balanced :
      (c : Control) (at : ℕ) (swipe : Bool) (s : Option (TouchSpec fl.F))
      → Balanced c (touch_events fl ops at swipe s)
  unfolding touch_events
  touch_events-Balanced c at swipe none = record { balance = refl }
  touch_events-Balanced c at swipe (some s) =
      contact-Balanced c at (at + s.duration) s.x1 s.y1 s.x2 s.y2
        (if swipe then samples fl ops 11 1 at s else [])
        (if-Balanced c swipe (samples-Balanced c 11 1 at s) (record { balance = refl }))

  key_events-Balanced :
      (c : Control) (at : ℕ) (detail : Option Bytes) (button : Option ℕ)
      → Balanced c (key_events fl ops at detail button)
  unfolding key_events
  key_events-Balanced c at detail none = record { balance = refl }
  key_events-Balanced (Control.key i) at detail (some button) = record { balance = ground arith }
  key_events-Balanced Control.home at detail (some button) = record { balance = refl }
  key_events-Balanced Control.contact at detail (some button) = record { balance = refl }

  home_events-Balanced :
      (c : Control) (down up : ℕ)
      → Balanced c (
          event fl ops down SyntheticAction.home_down
          ∷ event fl ops up SyntheticAction.home_up
          ∷ [])
  home_events-Balanced (Control.key i) down up = record { balance = refl }
  home_events-Balanced Control.home down up = record { balance = refl }
  home_events-Balanced Control.contact down up = record { balance = refl }

  quit-Balanced : (c : Control) (at : ℕ) → Balanced c (event fl ops at SyntheticAction.quit ∷ [])
  quit-Balanced (Control.key i) at = record { balance = refl }
  quit-Balanced Control.home at = record { balance = refl }
  quit-Balanced Control.contact at = record { balance = refl }

  sleep-Balanced : (c : Control) (at : ℕ) → Balanced c (event fl ops at SyntheticAction.sleep ∷ [])
  sleep-Balanced (Control.key i) at = record { balance = ground arith }
  sleep-Balanced Control.home at = record { balance = refl }
  sleep-Balanced Control.contact at = record { balance = refl }

  keyed_events-Balanced :
      (c : Control) (env : Env) (at : ℕ) (name : Bytes) (detail : Option Bytes)
      → Balanced c (keyed_events fl ops env at name detail)
  unfolding keyed_events
  keyed_events-Balanced c env at name detail = if-Balanced c _ (quit-Balanced c at) (
      if-Balanced c _ (sleep-Balanced c at) (
        if-Balanced c _ (home_events-Balanced c at (at + hold_ms detail))
          (elim (is_touch fl ops name detail)
            as (λ t. Balanced c (elim t [
              | some (swipe, d) ↦ touch_events fl ops at swipe (parse_touch_spec fl ops env d swipe)
              | none ↦ key_events fl ops at detail (named_button name)
            ])) [
              | some (swipe, d) ↦
                  touch_events-Balanced c at swipe (parse_touch_spec fl ops env d swipe)
              | none ↦ key_events-Balanced c at detail (named_button name)
            ])))

  part_events-Balanced :
      (c : Control) (env : Env) (time rest : Bytes) (parts : Option (Bytes × Bytes))
      → Balanced c (elim parts [
        | none ↦ keyed_events fl ops env (strtoull time) (uppercase rest) none
        | some (name, detail) ↦
            keyed_events fl ops env (strtoull time) (uppercase name) (some detail)
      ])
  part_events-Balanced c env time rest none =
      keyed_events-Balanced c env (strtoull time) (uppercase rest) none
  part_events-Balanced c env time rest (some (name, detail)) =
      keyed_events-Balanced c env (strtoull time) (uppercase name) (some detail)

  item_events-Balanced :
      (c : Control) (env : Env) (item : Bytes) → Balanced c (item_events fl ops env item)
  unfolding item_events
  item_events-Balanced c env item =
      elim (split_at 58 item)
        as (λ parts. Balanced c (elim parts [
          | none ↦ []
          | some (time, rest) ↦ elim (split_at 58 rest) [
            | none ↦ keyed_events fl ops env (strtoull time) (uppercase rest) none
            | some (name, detail) ↦
                keyed_events fl ops env (strtoull time) (uppercase name) (some detail)
          ]
        ])) [
          | none ↦ record { balance = refl }
          | some (time, rest) ↦ part_events-Balanced c env time rest (split_at 58 rest)
        ]

  script_events-Balanced :
      (c : Control) (env : Env) (item script : Bytes)
      → Balanced c (script_events fl ops env item script)
  unfolding script_events
  script_events-Balanced c env item [] = item_events-Balanced c env item
  script_events-Balanced c env item (x ∷ xs) =
      if-Balanced c (x == 59)
        (Balanced-append c (item_events fl ops env item) _ (item_events-Balanced c env item)
          (script_events-Balanced c env [] xs))
        (script_events-Balanced c env (item ++ (x ∷ [])) xs)

  -- If `std::sort` permutes its list, then for each button, for the home key and for the contact a
  -- script, well formed or not, has as many actions that press it as actions that release it, but for the
  -- power button: each of its sleeps presses that once more and nothing in the script releases it.
  pub initialize_synthetic_events-Balanced :
      ((es : List (SyntheticEvent fl.F)) → Permᴰ (ops.sort es) es)
      → (c : Control) (env : Env) (script : Option Bytes)
      → Balanced c (initialize_synthetic_events fl ops env script)
  unfolding initialize_synthetic_events
  initialize_synthetic_events-Balanced sorts c env none = record { balance = refl }
  initialize_synthetic_events-Balanced sorts c env (some []) = record { balance = refl }
  initialize_synthetic_events-Balanced sorts c env (some (x ∷ xs)) =
      let events = script_events fl ops env [] (x ∷ xs) in
      let whole = (script_events-Balanced c env [] (x ∷ xs)).balance in
      record {
        balance =
            rw
              (
                count-Permᴰ (takes c) (sorts events),
                count-Permᴰ (lets_go c) (sorts events),
                count-Permᴰ (sleeps c) (sorts events),
              )
              whole;
      }
