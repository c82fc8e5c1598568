-- ===== src/Esc/Speed.antt =====
-- The pulses that the driver sends.
use efc.Common.{ℕ, ◌+◌, ◌-◌, ◌≤◌, ◌<◌, ◌^◌, ◌≡◌, ◌∙◌, true, false, none, arith}
use efc.Common.Float.{FloatOps, IsIeee}
use efc.Esc.Types.{
  Platform, success, Protocol, pwm, oneshot_125, oneshot_42, multishot, unknown, Config, Inst,
  World, min_pulse_us, max_pulse_us, protocol_period_us,
}
use efc.Esc.Api.{init, pulse_duration_us}

-- One of the four protocols.
abbrev pub IsKnown : Protocol → Type 0
IsKnown (unknown n) = ⊥
IsKnown _ = Unit {0}

pub pulse_order :
    (p : Protocol)
    → IsKnown p
    → (min_pulse_us p < max_pulse_us p)
      × (max_pulse_us p < protocol_period_us p)
      × (max_pulse_us p < 2 ^ 24)
pulse_order (unknown n) h = absurd h
pulse_order pwm h = omega arith
pulse_order oneshot_125 h = omega arith
pulse_order oneshot_42 h = omega arith
pulse_order multishot h = omega arith

module _ {os : Platform} {float : FloatOps} where
  open float use {F, of_ℕ, lt}

  -- An instance as `ESC_Init` leaves it for protocol `p`, without pulse offsets.
  pub record IsReady (esc : Inst os float) (p : Protocol) : Type 0 where
    pub known : IsKnown p
    pub initialized : esc.initialized ≡ true
    pub protocol : esc.protocol ≡ p
    pub period : esc.period_us ≡ protocol_period_us p
    pub min : esc.min_pulse_duration_us ≡ of_ℕ (min_pulse_us p)
    pub max : esc.max_pulse_duration_us ≡ of_ℕ (max_pulse_us p)

  module _ (ieee : IsIeee float) where
    pulse_duration_us_lem :
        (esc : Inst os float) (p : Protocol) (speed : F)
        → IsReady esc p
        → pulse_duration_us os float esc speed
          ≡ float.to_u32 (
              float.add
                (float.mul (of_ℕ (max_pulse_us p - min_pulse_us p)) speed)
                (of_ℕ (min_pulse_us p)))
    unfolding pulse_duration_us
    pulse_duration_us_lem esc p speed r =
        let order = pulse_order p r.known in
        cc (
          r.min,
          r.max,
          ieee.sub_exact (max_pulse_us p) (min_pulse_us p) (omega arith) (omega arith),
        )

    -- For an instance as ESC_Init leaves it for one of the four protocols without offsets,
    -- with arithmetic as IsIeee describes it, and a speed that is a number between 0 and 1:
    -- the pulse that ESC_SetSpeed computes lies in the range of the protocol.
    pub pulse_bounds :
        (esc : Inst os float) (p : Protocol) (speed : F)
        → IsReady esc p
        → ieee.IsNumber speed
        → lt speed (of_ℕ 0) ≡ false
        → lt (of_ℕ 1) speed ≡ false
        → (min_pulse_us p ≤ pulse_duration_us os float esc speed)
          × (pulse_duration_us os float esc speed ≤ max_pulse_us p)
    pulse_bounds esc p speed r num lo hi =
        let order = pulse_order p r.known in
        let span =
          ieee.mul_number (max_pulse_us p - min_pulse_us p) speed (omega arith) num lo hi in
        let sum =
          ieee.add_monotone (float.mul (of_ℕ (max_pulse_us p - min_pulse_us p)) speed)
            (max_pulse_us p - min_pulse_us p) (min_pulse_us p) (omega arith) span.0 span.1 span.2 in
        let top : max_pulse_us p - min_pulse_us p + min_pulse_us p ≡ max_pulse_us p = omega arith in
        rw (pulse_duration_us_lem esc p speed r) (
          ieee.truncate _ (min_pulse_us p) (max_pulse_us p) (omega arith) sum.0 sum.1
            (rw top at sum.2))

    -- For an instance as ESC_Init leaves it for one of the four protocols without offsets,
    -- with arithmetic as IsIeee describes it: speed 0 gives the minimum pulse of the
    -- protocol, and speed 1 its maximum.
    pub pulse_ends :
        (esc : Inst os float) (p : Protocol)
        → IsReady esc p
        → (pulse_duration_us os float esc (of_ℕ 0) ≡ min_pulse_us p)
          × (pulse_duration_us os float esc (of_ℕ 1) ≡ max_pulse_us p)
    pulse_ends esc p r =
        let order = pulse_order p r.known in
        let span = max_pulse_us p - min_pulse_us p in
        (
          pulse_duration_us_lem esc p (of_ℕ 0) r
              ∙ rw
                  (
                    ieee.mul_zero span (omega arith),
                    ieee.add_exact 0 (min_pulse_us p) (omega arith),
                    ieee.truncate_exact (0 + min_pulse_us p) (omega arith),
                  )
                  (omega arith),
          pulse_duration_us_lem esc p (of_ℕ 1) r
              ∙ rw
                  (
                    ieee.mul_one span (omega arith),
                    ieee.add_exact span (min_pulse_us p) (omega arith),
                    ieee.truncate_exact (span + min_pulse_us p) (omega arith),
                  )
                  (omega arith),
        )

  -- ESC_Init on a ready device, for one of the four protocols and without offsets, succeeds,
  -- sets up the instance for the protocol on that device and channel, and touches no output.
  pub init-IsReady :
      (cfg : Config) (p : Protocol) (dev : os.Device) (channel : ℕ) (w : World os float)
      → IsKnown p
      → cfg.min_pulse_offset_percent ≡ none
      → cfg.max_pulse_offset_percent ≡ none
      → os.device_is_ready dev w.io ≡ true
      → ((init os float cfg dev channel p w).0 ≡ success)
        × IsReady (init os float cfg dev channel p w).1.esc p
        × ((init os float cfg dev channel p w).1.esc.pwm_dev ≡ dev)
        × ((init os float cfg dev channel p w).1.esc.pwm_channel ≡ channel)
        × ((init os float cfg dev channel p w).1.io ≡ w.io)
  unfolding init
  init-IsReady cfg (unknown n) dev channel w k e f h = absurd k
  init-IsReady cfg _ dev channel w k e f h = ground arith
