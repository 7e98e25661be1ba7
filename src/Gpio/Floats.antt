-- ===== src/Gpio/Floats.antt =====
-- What src/HalGPIO.cpp uses of the type `float`, as a parameter: the library has no floating point.
use crosspoint_simulator_ios.Base.{ℕ, Bool, true, false, ◌≡◌, if◌then◌else◌}

-- The operations. `of_int` and `to_int` are the casts between `int` and `float`, used for values
-- that are not negative.
pub record FloatOps : Type 1 where
  pub F : Type 0
  pub of_int : ℕ → F
  pub to_int : F → ℕ
  pub sub : F → F → F
  pub mul : F → F → F
  pub div : F → F → F
  pub abs : F → F
  pub lt : F → F → Bool

module _ (fl : FloatOps) where
  -- `std::max(0.0f, std::min(1.0f, value))`: each returns its first argument unless the test holds.
  unfoldable pub clamp01 : fl.F → fl.F
  clamp01 v =
      let zero_f = fl.of_int 0 in
      let one_f = fl.of_int 1 in
      let low = if fl.lt v one_f then v else one_f in if fl.lt zero_f low then low else zero_f

  -- The drift between two coordinates along an axis of `size` pixels, in pixels.
  abbrev pub drift : ℕ → fl.F → fl.F → fl.F
  drift size from to = fl.abs (fl.mul (fl.sub to from) (fl.of_int size))

  -- What IEEE arithmetic promises of coordinates, none of which is a NaN: the clamp gives one, no
  -- drift separates one from itself, and a drift that is not below 60 is above 59.
  pub record FloatLaws : Type 1 where
    pub IsCoord : fl.F → Type 0
    pub clamp01-IsCoord : (v : fl.F) → IsCoord (clamp01 v)
    pub zero-IsCoord : IsCoord (fl.of_int 0)
    pub drift_self :
        (size : ℕ) (a : fl.F) → IsCoord a → fl.lt (fl.of_int 59) (drift size a a) ≡ false
    pub above_59_of_not_below_60 :
        (size : ℕ) (a b : fl.F)
        → IsCoord a
        → IsCoord b
        → fl.lt (drift size a b) (fl.of_int 60) ≡ false
        → fl.lt (fl.of_int 59) (drift size a b) ≡ true
