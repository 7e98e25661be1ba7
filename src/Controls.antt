-- ===== src/Controls.antt =====
-- src/SimulatorOnScreenControls.cpp: the strip of keys below the panel.
pub mod Hits
use crosspoint_simulator_ios.Base.{
  ℕ, zero, suc, ◌+◌, ◌-◌, ◌*◌, ◌/◌, Bool, true, false, not, ◌&&◌, ◌||◌, List, [], ◌∷◌, ◌++◌, Option,
  none, some, if◌then◌else◌, ltb, leb, ◌==◌, length, min,
}
use crosspoint_simulator_ios.Board.{BoardProfile, has_touch, has_home_key}

-- What a control stands for: a key of the device, `HOME_KEY` or `PICK_FOLDER`.
pub data Key : Type 0 where
  button : ℕ → Key
  home_key pick_folder : Key

pub data Glyph : Type 0 where
  chevron_up chevron_down chevron_left chevron_right confirm back power home folder : Glyph

-- `SDL_Rect`. A size that the code finds negative is 0 here: a press hits neither.
pub record Rect : Type 0 where
  pub x : ℕ
  pub y : ℕ
  pub w : ℕ
  pub h : ℕ

pub record Control : Type 0 where
  pub key : Key
  pub glyph : Glyph
  pub rect : Rect

-- The variables `controls`, with their number, and `captured`.
pub record Strip : Type 0 where
  pub controls : List Control
  pub captured : Option ℕ

-- `add`
unfoldable pub add : Key → Glyph → List Control → List Control
add key glyph cs =
    if leb 8 (length cs)
    then cs
    else cs
      ++ (record { key = key; glyph = glyph; rect = record { x = 0; y = 0; w = 0; h = 0 } } ∷ [])

-- `build` on its first call.
unfoldable pub build : (can_pick_folder : Bool) → BoardProfile → List Control
build can_pick p =
    let cs = if can_pick then add Key.pick_folder Glyph.folder [] else [] in
    if has_touch p
    then (let up = add (Key.button 4) Glyph.chevron_up cs in
        let middle = if has_home_key p then add Key.home_key Glyph.home up else up in
        add (Key.button 5) Glyph.chevron_down (add (Key.button 6) Glyph.power middle))
    else (let left = add (Key.button 2) Glyph.chevron_left (add (Key.button 0) Glyph.back cs) in
        let middle = add (Key.button 1) Glyph.confirm (add (Key.button 4) Glyph.chevron_up left) in
        let right =
          add (Key.button 3) Glyph.chevron_right (add (Key.button 5) Glyph.chevron_down middle) in
        add (Key.button 6) Glyph.power right)

abbrev pub key_area_height : ℕ
key_area_height = 96

-- `stripHeight` without the gutter of iOS, where the strip is never enabled.
unfoldable pub strip_height : (enabled : Bool) → List Control → ℕ
strip_height enabled cs = if enabled && ltb 0 (length cs) then key_area_height else 0

-- The rectangles that `render` gives the controls from number i on.
unfoldable pub place : (slot_w strip_y area size i : ℕ) → List Control → List Control
place slot_w strip_y area size i [] = []
place slot_w strip_y area size i (c ∷ cs) =
    record c {
      rect = record {
        x = slot_w * i + slot_w / 2 - size / 2;
        y = strip_y + area / 2 - size / 2;
        w = size;
        h = size;
      };
    }
    ∷ place slot_w strip_y area size (i + 1) cs

-- What `render` does to the controls; the drawing is SDL. The logical height counts the strip, so that it
-- is at least the strip's.
unfoldable pub render : (enabled : Bool) → (logical_width logical_height : ℕ) → Strip → Strip
render enabled width height s =
    let strip = strip_height enabled s.controls in
    if strip == 0
    then s
    else (let area = min strip key_area_height in
        let slot_w = width / length s.controls in
        record s {
          controls =
              place slot_w (height - strip) area (min (slot_w - 12) (area - 20)) 0 s.controls;
        })

-- Whether a press is on a control that has been laid out.
unfoldable pub hits : ℕ → ℕ → Rect → Bool
hits x y r =
    not (r.w == 0) && not (ltb x r.x || leb (r.x + r.w) x || ltb y r.y || leb (r.y + r.h) y)

-- The first control that is hit, with its number, which counts from i.
unfoldable pub first_hit : ℕ → ℕ → ℕ → List Control → Option (ℕ × Key)
first_hit i x y [] = none
first_hit i x y (c ∷ cs) =
    let rest = first_hit (i + 1) x y cs in if hits x y c.rect then some (i, c.key) else rest

-- The calls of `SimulatorInput` and of the folder picker.
pub data Call : Type 0 where
  home_key_set : Bool → Call
  button_down button_up : ℕ → Call
  pick_folder_open : Call

unfoldable pub press_calls : Key → List Call
press_calls (Key.button b) = Call.button_down b ∷ []
press_calls Key.home_key = Call.home_key_set true ∷ []
press_calls Key.pick_folder = []

unfoldable pub release_calls : Key → List Call
release_calls (Key.button b) = Call.button_up b ∷ []
release_calls Key.home_key = Call.home_key_set false ∷ []
release_calls Key.pick_folder = Call.pick_folder_open ∷ []

-- `handlePress`: whether the press is taken, the calls, and the strip. A press that is taken asks the
-- display to present.
unfoldable pub handle_press : (enabled : Bool) → (x y : ℕ) → Strip → Bool × List Call × Strip
handle_press enabled x y s =
    if strip_height enabled s.controls == 0
    then (false, [], s)
    else elim (first_hit 0 x y s.controls) [
      | none ↦ (false, [], s)
      | some (i, key) ↦ (true, press_calls key, record s { captured = some i })
    ]

unfoldable pub key_at : ℕ → List Control → Option Key
key_at i [] = none
key_at zero (c ∷ cs) = some c.key
key_at (suc i) (c ∷ cs) = key_at i cs

-- `handleRelease`
unfoldable pub handle_release : Strip → Bool × List Call × Strip
handle_release s = elim s.captured [
  | none ↦ (false, [], s)
  | some i ↦ elim (key_at i s.controls) [
    | none ↦ (false, [], s)
    | some key ↦ (true, release_calls key, record s { captured = none })
  ]
]
