-- ===== src/Lifecycle.antt =====
-- src/SimulatorLifecycle.cpp, the relaunch of the simulator as a wake from deep sleep, and
-- src/SimulatorNetworkPorts.h, the ports that the environment configures.
pub mod Relaunch
use crosspoint_simulator_ios.Base.{
  ℕ, ◌+◌, ◌||◌, Bool, [], ◌∷◌, Option, none, some, if◌then◌else◌, ltb, ◌==◌, Bytes, bytes_eq,
}
use crosspoint_simulator_ios.Base.Text.{codes}

-- The environment variables that the two files read.
pub record Environment : Type 0 where
  pub wake_reason : Option Bytes
  pub input_script : Option Bytes
  pub input_script_after_wake : Option Bytes
  pub screenshots : Option Bytes
  pub screenshots_after_wake : Option Bytes
  pub http_port : Option Bytes

pub data WakeReason : Type 0 where
  no_reason power_button : WakeReason

-- `consumeWakeReason`
unfoldable pub consume_wake_reason : Environment → WakeReason × Environment
consume_wake_reason e = elim e.wake_reason [
  | none ↦ (WakeReason.no_reason, e)
  | some value ↦ (
    if bytes_eq value (codes "power") then WakeReason.power_button else WakeReason.no_reason,
    record e { wake_reason = none },
  )
]

-- The environment of the new process that `rebootAsPowerWake` starts, after `promoteAfterWakeValue` of the
-- script and of the screenshots.
unfoldable pub reboot_as_power_wake : Environment → Environment
reboot_as_power_wake e = record e {
  wake_reason = some (codes "power");
  input_script = e.input_script_after_wake;
  input_script_after_wake = none;
  screenshots = e.screenshots_after_wake;
  screenshots_after_wake = none;
}

-- What `std::strtol` gives for the configured text: the number if all of it is a number in range. The
-- call is a parameter.
module _ (strtol : Bytes → Option ℕ) where
  -- `httpPort`
  unfoldable pub http_port : Environment → ℕ
  http_port e = elim e.http_port [
    | none ↦ 8080
    | some [] ↦ 8080
    | some (c ∷ cs) ↦ elim (strtol (c ∷ cs)) [
      | none ↦ 8080
      | some parsed ↦ if ltb parsed 1024 || ltb 65534 parsed then 8080 else parsed
    ]
  ]

  -- `mapFirmwarePort`
  unfoldable pub map_firmware_port : Environment → ℕ → ℕ
  map_firmware_port e port =
      if port == 80 then http_port e else if port == 81 then http_port e + 1 else port
