-- ===== src/Controls/Hits.antt =====
-- A press and a release on the keys of src/SimulatorOnScreenControls.cpp.
use native.Mathlib.Nat as Nat
use crosspoint_simulator_ios.Base.{
  ℕ, zero, suc, ◌+◌, ◌-◌, ◌*◌, ◌/◌, ◌≤◌, ◌<◌, ◌≡◌, refl, true, false, List, [], ◌∷◌, none, some,
  arith, ap, sym, ◌∙◌, subst, length, min,
}
use crosspoint_simulator_ios.Controls.{
  Control, Strip, Key, Rect, place, hits, first_hit, key_at, handle_press, handle_release,
  strip_height, render, press_calls, release_calls,
}

-- A point of the square of key number i.
pub record OnKey (slot_w strip_y area size i x y : ℕ) : Type 0 where
  pub from_left : slot_w * i + slot_w / 2 - size / 2 ≤ x
  pub to_right : x < slot_w * i + slot_w / 2 - size / 2 + size
  pub from_top : strip_y + area / 2 - size / 2 ≤ y
  pub to_bottom : y < strip_y + area / 2 - size / 2 + size

abbrev square : (slot_w strip_y area size i : ℕ) → Rect
square slot_w strip_y area size i = record {
  x = slot_w * i + slot_w / 2 - size / 2;
  y = strip_y + area / 2 - size / 2;
  w = size;
  h = size;
}

hits-own :
    (slot_w strip_y area size i x y : ℕ)
    → OnKey slot_w strip_y area size i x y
    → hits x y (square slot_w strip_y area size i) ≡ true
unfolding hits
hits-own slot_w strip_y area size i x y on = ground arith

-- The squares of two keys have no point in common.
hits-other :
    (slot_w strip_y area size i k x y : ℕ)
    → size ≤ slot_w
    → OnKey slot_w strip_y area size (i + 1 + k) x y
    → hits x y (square slot_w strip_y area size i) ≡ false
unfolding hits
hits-other slot_w strip_y area size i k x y fits on =
    let apart : slot_w * (i + 1 + k) ≡ slot_w * i + slot_w + slot_w * k =
      Nat.mul-add slot_w (i + 1) k
      ∙ ap (λ n. n + slot_w * k)
          (Nat.mul-add slot_w i 1 ∙ ap (λ n. slot_w * i + n) (Nat.mul-one slot_w)) in
    let right : slot_w * i + slot_w / 2 - size / 2 + size ≤ x =
      omega (arith, apart, on.from_left, fits) in
    ground (arith, right)

first_hit-place :
    (slot_w strip_y area size i k x y : ℕ) (cs : List Control) (key : Key)
    → size ≤ slot_w
    → key_at k cs ≡ some key
    → OnKey slot_w strip_y area size (i + k) x y
    → first_hit i x y (place slot_w strip_y area size i cs) ≡ some (i + k, key)
unfolding first_hit place key_at
first_hit-place slot_w strip_y area size i k x y [] key fits at on = cc
first_hit-place slot_w strip_y area size i zero x y (c ∷ cs) key fits at on =
    let same : i + 0 ≡ i = omega arith in
    rw
      (
        hits-own slot_w strip_y area size i x y
            (subst (λ n. OnKey slot_w strip_y area size n x y) same on),
        same,
      )
      (ap (λ o. elim o [ none ↦ none | some a ↦ some (i, a) ]) at)
first_hit-place slot_w strip_y area size i (suc k) x y (c ∷ cs) key fits at on =
    let same : i + suc k ≡ i + 1 + k = omega arith in
    let on' = subst (λ n. OnKey slot_w strip_y area size n x y) same on in
    rw (hits-other slot_w strip_y area size i k x y fits on', same)
      (first_hit-place slot_w strip_y area size (i + 1) k x y cs key fits at on')

abbrev pub slot_width : ℕ → Strip → ℕ
slot_width width s = width / length s.controls

-- The side of a key.
abbrev pub key_size : ℕ → Strip → ℕ
key_size width s = min (slot_width width s - 12) 76

place-key_at :
    (slot_w strip_y area size i k : ℕ) (cs : List Control)
    → key_at k (place slot_w strip_y area size i cs) ≡ key_at k cs
unfolding key_at place
place-key_at slot_w strip_y area size i k [] = refl
place-key_at slot_w strip_y area size i zero (c ∷ cs) = refl
place-key_at slot_w strip_y area size i (suc k) (c ∷ cs) =
    place-key_at slot_w strip_y area size (i + 1) k cs

-- A strip with a key in it has its height.
key_at-strip_height :
    (k : ℕ) (cs : List Control) (key : Key) → key_at k cs ≡ some key → strip_height true cs ≡ 96
unfolding key_at strip_height
key_at-strip_height k [] key at = cc
key_at-strip_height k (c ∷ cs) key at = ground arith

-- The strip as `render` lays it out.
abbrev pub laid_out : (width height : ℕ) → Strip → List Control
laid_out width height s =
    place (slot_width width s) (height - 96) 96 (key_size width s) 0 s.controls

render-laid_out :
    (width height : ℕ) (s : Strip)
    → strip_height true s.controls ≡ 96
    → render true width height s ≡ record s { controls = laid_out width height s }
unfolding render
render-laid_out width height s shown = rw shown refl

handle_press-laid_out :
    (width height k x y : ℕ) (s : Strip) (key : Key)
    → key_at k s.controls ≡ some key
    → OnKey (slot_width width s) (height - 96) 96 (key_size width s) k x y
    → handle_press true x y (record s { controls = laid_out width height s })
      ≡ (true, press_calls key, record s { controls = laid_out width height s; captured = some k })
unfolding handle_press
handle_press-laid_out width height k x y s key at on =
    let shown =
      key_at-strip_height k (laid_out width height s) key (
        place-key_at (slot_width width s) (height - 96) 96 (key_size width s) 0 k s.controls
        ∙ at) in
    let same : k ≡ 0 + k = omega arith in
    let found : first_hit 0 x y (laid_out width height s) ≡ some (k, key) =
      subst (λ n. first_hit 0 x y (laid_out width height s) ≡ some (n, key)) (sym same)
        (first_hit-place (slot_width width s) (height - 96) 96 (key_size width s) 0 k x y s.controls
          key (omega arith) at
          (subst (λ n. OnKey (slot_width width s) (height - 96) 96 (key_size width s) n x y) same
            on)) in
    rw (shown, found) refl

handle_release-captured :
    (k : ℕ) (s : Strip) (key : Key)
    → key_at k s.controls ≡ some key
    → handle_release (record s { captured = some k })
      ≡ (true, release_calls key, record s { captured = none })
unfolding handle_release
handle_release-captured k s key at = rw (at, handle_release) refl

-- On a strip that has been laid out, a press anywhere on key number k is taken by that key and by no
-- other: it posts that key's press, which is nothing for the folder key, and remembers the key. The
-- release, wherever the finger is by then, posts the release of the same key and forgets it; for the
-- folder key it opens the folder picker, also if the finger has slid off the key.
pub press-release :
    (width height k x y : ℕ) (s : Strip) (key : Key)
    → key_at k s.controls ≡ some key
    → OnKey (slot_width width s) (height - 96) 96 (key_size width s) k x y
    → (handle_press true x y (render true width height s) ≡ (
      true,
      press_calls key,
      record s { controls = laid_out width height s; captured = some k },
    ))
      × (handle_release (handle_press true x y (render true width height s)).2 ≡ (
        true,
        release_calls key,
        record s { controls = laid_out width height s; captured = none },
      ))
press-release width height k x y s key at on =
    let shown = render-laid_out width height s (key_at-strip_height k s.controls key at) in
    let pressed = handle_press-laid_out width height k x y s key at on in
    let placed =
      place-key_at (slot_width width s) (height - 96) 96 (key_size width s) 0 k s.controls ∙ at in
    rw (shown, pressed)
      (refl, handle_release-captured k (record s { controls = laid_out width height s }) key placed)
