-- ===== src/Gpio/Schedule.antt =====
-- The input script of src/HalGPIO.cpp: `initializeSyntheticEvents` and what it calls.
use crosspoint_simulator_ios.Base.{
  ℕ, zero, suc, ◌+◌, ◌-◌, ◌*◌, ◌/◌, Bool, true, false, ◌&&◌, ◌||◌, List, [], ◌∷◌, ◌++◌, map, Option,
  none, some, if◌then◌else◌, ltb, leb, ◌==◌, Bytes, bytes_eq,
}
use crosspoint_simulator_ios.Base.Search.{split_at}
use crosspoint_simulator_ios.Base.Text.{codes}
use crosspoint_simulator_ios.Base.Words.{u64}
use crosspoint_simulator_ios.Http.Head.{strtoull}
use crosspoint_simulator_ios.Gpio.Floats.{FloatOps, clamp01}
use crosspoint_simulator_ios.Gpio.State.{Env, SyntheticAction, SyntheticEvent}

-- `uppercase`
unfoldable pub uppercase : Bytes → Bytes
uppercase = map (λ c. if leb 97 c && leb c 122 then c - 32 else c)

-- `namedButton`; `none` is -1.
unfoldable pub named_button : Bytes → Option ℕ
named_button name =
    if bytes_eq name (codes "ESCAPE") || bytes_eq name (codes "BACK")
    then some 0
    else if bytes_eq name (codes "RETURN")
        || bytes_eq name (codes "ENTER")
        || bytes_eq name (codes "CONFIRM")
    then some 1
    else if bytes_eq name (codes "LEFT")
    then some 2
    else if bytes_eq name (codes "RIGHT")
    then some 3
    else if bytes_eq name (codes "UP")
    then some 4
    else if bytes_eq name (codes "DOWN")
    then some 5
    else if bytes_eq name (codes "P") || bytes_eq name (codes "POWER")
    then some 6
    else none

-- The milliseconds that a key is held: 80 if the item has no third part.
unfoldable pub hold_ms : Option Bytes → ℕ
hold_ms none = 80
hold_ms (some detail) = strtoull detail

-- The fields of `parseTouchSpec`.
pub record TouchSpec (F : Type 0) : Type 0 where
  pub x1 : F
  pub y1 : F
  pub x2 : F
  pub y2 : F
  pub duration : ℕ

-- What the parser uses beside `FloatOps`: a sum, `<=`, what `sscanf` finds of "%f,…,%f,%u" with this many
-- floats, which is a list of floats and then the number, and `std::sort` by time.
pub record ScriptOps (fl : FloatOps) : Type 0 where
  pub add : fl.F → fl.F → fl.F
  pub le : fl.F → fl.F → Bool
  pub scan : ℕ → Bytes → List fl.F × Option ℕ
  pub sort : List (SyntheticEvent fl.F) → List (SyntheticEvent fl.F)

module _ (fl : FloatOps) (ops : ScriptOps fl) where
  -- `normalize` in `parseTouchSpec`
  unfoldable pub normalize : ℕ → fl.F → fl.F
  normalize extent value =
      if ops.le (fl.of_int 0) value && ops.le value (fl.of_int 1)
      then value
      else clamp01 fl (fl.div value (fl.of_int (if ltb 1 (extent - 1) then extent - 1 else 1)))

  abbrev pub duration_or : Option ℕ → ℕ → ℕ
  duration_or none default = default
  duration_or (some d) default = d

  -- The end of `parseTouchSpec`.
  unfoldable pub touch_spec : Env → fl.F → fl.F → fl.F → fl.F → ℕ → TouchSpec fl.F
  touch_spec env x1 y1 x2 y2 duration = record {
    x1 = normalize env.screen_width x1;
    y1 = normalize env.screen_height y1;
    x2 = normalize env.screen_width x2;
    y2 = normalize env.screen_height y2;
    duration = duration;
  }

  unfoldable pub swipe_spec : Env → List fl.F × Option ℕ → Option (TouchSpec fl.F)
  swipe_spec env (x1 ∷ y1 ∷ x2 ∷ y2 ∷ rest, d) =
      some (touch_spec env x1 y1 x2 y2 (duration_or d 250))
  swipe_spec env (_, d) = none

  unfoldable pub tap_spec : Env → List fl.F × Option ℕ → Option (TouchSpec fl.F)
  tap_spec env (x1 ∷ y1 ∷ rest, d) = some (touch_spec env x1 y1 x1 y1 (duration_or d 80))
  tap_spec env (_, d) = none

  -- `parseTouchSpec`
  unfoldable pub parse_touch_spec : Env → Bytes → (swipe : Bool) → Option (TouchSpec fl.F)
  parse_touch_spec env detail swipe =
      if swipe then swipe_spec env (ops.scan 4 detail) else tap_spec env (ops.scan 2 detail)

  -- `syntheticEvents.push_back`
  abbrev pub event : ℕ → SyntheticAction fl.F → SyntheticEvent fl.F
  event at action = record { at_ms = u64 at; action = action; handled = false }

  -- The samples of a swipe from number i on, with `left` still to come.
  unfoldable pub samples : (left i : ℕ) → ℕ → TouchSpec fl.F → List (SyntheticEvent fl.F)
  samples zero i at s = []
  samples (suc left) i at s =
      let t = fl.div (fl.of_int i) (fl.of_int 12) in
      event (at + s.duration * i / 12) (
        SyntheticAction.touch_move (ops.add s.x1 (fl.mul (fl.sub s.x2 s.x1) t))
          (ops.add s.y1 (fl.mul (fl.sub s.y2 s.y1) t)))
      ∷ samples left (i + 1) at s

  unfoldable pub touch_events : ℕ → Bool → Option (TouchSpec fl.F) → List (SyntheticEvent fl.F)
  touch_events at swipe none = []
  touch_events at swipe (some s) =
      event at (SyntheticAction.touch_down s.x1 s.y1)
      ∷ ((if swipe then samples 11 1 at s else [])
          ++ (event (at + s.duration) (SyntheticAction.touch_up s.x2 s.y2) ∷ []))

  unfoldable pub key_events : ℕ → Option Bytes → Option ℕ → List (SyntheticEvent fl.F)
  key_events at detail none = []
  key_events at detail (some button) =
      event at (SyntheticAction.key_down button)
      ∷ event (at + hold_ms detail) (SyntheticAction.key_up button)
      ∷ []

  -- Whether the item is a contact: it has to have a third part.
  abbrev pub is_touch : Bytes → Option Bytes → Option (Bool × Bytes)
  is_touch key none = none
  is_touch key (some detail) =
      if bytes_eq key (codes "TAP")
      then some (false, detail)
      else if bytes_eq key (codes "SWIPE")
      then some (true, detail)
      else none

  -- The events of an item at a time, with its key and its third part.
  unfoldable pub keyed_events : Env → ℕ → Bytes → Option Bytes → List (SyntheticEvent fl.F)
  keyed_events env at key detail =
      if bytes_eq key (codes "QUIT")
      then event at SyntheticAction.quit ∷ []
      else if bytes_eq key (codes "S") || bytes_eq key (codes "SLEEP")
      then event at SyntheticAction.sleep ∷ []
      else if bytes_eq key (codes "HOME")
      then event at SyntheticAction.home_down
        ∷ event (at + hold_ms detail) SyntheticAction.home_up
        ∷ []
      else elim (is_touch key detail) [
        | some (swipe, d) ↦ touch_events at swipe (parse_touch_spec env d swipe)
        | none ↦ key_events at detail (named_button key)
      ]

  -- One item between semicolons.
  unfoldable pub item_events : Env → Bytes → List (SyntheticEvent fl.F)
  item_events env item = elim (split_at 58 item) [
    | none ↦ []
    | some (time, rest) ↦ elim (split_at 58 rest) [
      | none ↦ keyed_events env (strtoull time) (uppercase rest) none
      | some (key, detail) ↦ keyed_events env (strtoull time) (uppercase key) (some detail)
    ]
  ]

  -- The loop over the items, `item` having been read.
  unfoldable pub script_events : Env → Bytes → Bytes → List (SyntheticEvent fl.F)
  script_events env item [] = item_events env item
  script_events env item (c ∷ cs) =
      let next = script_events env [] cs in
      let more = script_events env (item ++ (c ∷ [])) cs in
      if c == 59 then item_events env item ++ next else more

  -- `initializeSyntheticEvents` on its first call, with the variable of the environment.
  unfoldable pub initialize_synthetic_events : Env → Option Bytes → List (SyntheticEvent fl.F)
  initialize_synthetic_events env none = []
  initialize_synthetic_events env (some []) = []
  initialize_synthetic_events env (some (c ∷ cs)) = ops.sort (script_events env [] (c ∷ cs))
