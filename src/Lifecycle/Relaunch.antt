-- ===== src/Lifecycle/Relaunch.antt =====
-- What a relaunched process sees of src/SimulatorLifecycle.cpp, and which ports it may open.
use crosspoint_simulator_ios.Base.{
  ℕ, ◌+◌, ◌≤◌, ◌≡◌, refl, [], ◌∷◌, Option, none, some, arith, if◌then◌else◌, ltb, ◌||◌, Bytes,
}
use crosspoint_simulator_ios.Lifecycle.{
  Environment, WakeReason, consume_wake_reason, reboot_as_power_wake, http_port, map_firmware_port,
}

-- After a relaunch the first question for the wake reason is answered by the power button and every later one
-- by none, and a second relaunch runs no script: no script is ever replayed.
pub wake_once :
    (e : Environment)
    → let first = consume_wake_reason (reboot_as_power_wake e) in
      (first.0 ≡ WakeReason.power_button)
      × ((consume_wake_reason first.1).0 ≡ WakeReason.no_reason)
      × ((reboot_as_power_wake first.1).input_script ≡ none)
      × ((reboot_as_power_wake first.1).screenshots ≡ none)
unfolding consume_wake_reason reboot_as_power_wake
wake_once e = (refl, refl, refl, refl)

module _ (strtol : Bytes → Option ℕ) (e : Environment) where
  http_port-range : (1024 ≤ http_port strtol e) × (http_port strtol e ≤ 65534)
  unfolding http_port
  http_port-range = go e.http_port
    where
      go :
          (configured : Option Bytes)
          → let p : ℕ = elim configured [
            | none ↦ 8080
            | some [] ↦ 8080
            | some (c ∷ cs) ↦ elim (strtol (c ∷ cs)) [
              | none ↦ 8080
              | some parsed ↦ if ltb parsed 1024 || ltb 65534 parsed then 8080 else parsed
            ]
          ] in
            (1024 ≤ p) × (p ≤ 65534)
      go none = omega arith
      go (some []) = omega arith
      go (some (c ∷ cs)) = ground arith

  -- Whatever is configured, the pages and the sockets of the firmware get two neighbouring ports that need no
  -- privilege and that exist.
  pub ports_free :
      (1024 ≤ map_firmware_port strtol e 80)
      × (map_firmware_port strtol e 81 ≡ map_firmware_port strtol e 80 + 1)
      × (map_firmware_port strtol e 81 ≤ 65535)
  unfolding map_firmware_port
  ports_free = let r = http_port-range in (r.0, refl, omega arith)
