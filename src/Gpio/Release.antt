-- ===== src/Gpio/Release.antt =====
-- The frame boundary: what `HalGPIO::beginFrame` does to every button, and how a press and a release
-- that arrive within one frame reach the firmware.
use crosspoint_simulator_ios.Base.{
  ℕ, zero, suc, ◌<◌, ◌≡◌, refl, Bool, true, false, not, ◌&&◌, ◌||◌, arith, ltb, if◌then◌else◌,
}
use crosspoint_simulator_ios.Gpio.Floats.{FloatOps}
use crosspoint_simulator_ios.Gpio.State.{Env, Gpio, num_buttons}
use crosspoint_simulator_ios.Gpio.Keys.{
  press_synthetic, apply_button_up, clear_edges, clear_frame_edges, begin_frame, tick,
  deliver_release, deliver_releases,
}
use crosspoint_simulator_ios.Gpio.Events.{LiveInputAction, handle_user}

clear_edges_below : (n : ℕ) (f : ℕ → Bool) (i : ℕ) → i < n → clear_edges n f i ≡ false
unfolding clear_edges
clear_edges_below zero f i h = absurd (omega arith)
clear_edges_below (suc n) f i h = ground (arith, clear_edges_below n f i)

-- What the first `n` rounds of the loop of `tick` have done.
record Delivered {F : Type 0} (n : ℕ) (g h : Gpio F) : Type 0 where
  released :
      (i : ℕ)
      → h.released i ≡ (if ltb i n then g.release_pending i || g.released i else g.released i)
  synthetic :
      (i : ℕ)
      → h.synthetic_down i
        ≡ (if ltb i n then not (g.release_pending i) && g.synthetic_down i else g.synthetic_down i)
  pending : (i : ℕ) → h.release_pending i ≡ (if ltb i n then false else g.release_pending i)
  pressed : (i : ℕ) → h.pressed i ≡ g.pressed i

module _ {F : Type 0} where
  deliver_release-Delivered :
      (n : ℕ) (g h : Gpio F) (b : Bool)
      → Delivered n g h
      → Delivered (suc n) g (deliver_release n (h, b)).0
  unfolding deliver_release apply_button_up
  deliver_release-Delivered n g h b d = record {
    released = λ i. ground (arith, d.released i, d.pending n, d.pending i);
    synthetic = λ i. ground (arith, d.synthetic i, d.pending n, d.pending i);
    pending = λ i. ground (arith, d.pending i, d.pending n);
    pressed = λ i. ground (arith, d.pressed i);
  }

  deliver_releases-Delivered :
      (n : ℕ) (g : Gpio F) (b : Bool) → Delivered n g (deliver_releases n (g, b)).0
  unfolding deliver_releases
  deliver_releases-Delivered zero g b = record {
    released = λ i. ground arith;
    synthetic = λ i. ground arith;
    pending = λ i. ground arith;
    pressed = λ i. refl;
  }
  deliver_releases-Delivered (suc n) g b =
      let (h, c) = deliver_releases n (g, b) in
      deliver_release-Delivered n g h c (deliver_releases-Delivered n g b)

  -- A new frame starts with no press edge; its release edges are exactly the releases that were
  -- held back in the frame before, which also end the press; none is held back any longer.
  begin_frame_buttons :
      (env : Env) (g : Gpio F) (i : ℕ)
      → i < num_buttons
      → let h = begin_frame env g in
        (h.pressed i ≡ false)
        × (h.released i ≡ g.release_pending i)
        × (h.synthetic_down i ≡ (not (g.release_pending i) && g.synthetic_down i))
        × (h.release_pending i ≡ false)
  unfolding begin_frame tick clear_frame_edges
  begin_frame_buttons env g i lt =
      let d = deliver_releases-Delivered num_buttons (clear_frame_edges g) false in
      ground (
        arith,
        clear_edges_below num_buttons g.pressed i,
        clear_edges_below num_buttons g.released i,
        d.released i,
        d.synthetic i,
        d.pending i,
        d.pressed i,
      )

module _ (fl : FloatOps) where
  -- A key of the strip or of the phone that goes down and up within one frame is seen as pressed and
  -- held in that frame, and is released exactly at the next one.
  pub down_up_in_one_frame :
      (e₁ e₂ e₃ : Env) (g : Gpio fl.F) (i : ℕ)
      → i < num_buttons
      → let h =
          handle_user fl e₂ LiveInputAction.button_up i
            (handle_user fl e₁ LiveInputAction.button_down i g) in
        let n = begin_frame e₃ h in
        (h.pressed i ≡ true)
        × (h.synthetic_down i ≡ true)
        × (h.released i ≡ g.released i)
        × (n.pressed i ≡ false)
        × (n.synthetic_down i ≡ false)
        × (n.released i ≡ true)
  unfolding handle_user press_synthetic
  down_up_in_one_frame e₁ e₂ e₃ g i lt =
      let h =
        handle_user fl e₂ LiveInputAction.button_up i
          (handle_user fl e₁ LiveInputAction.button_down i g) in
      ground (arith, begin_frame_buttons e₃ h i lt)
