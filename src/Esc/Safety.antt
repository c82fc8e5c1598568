-- ===== src/Esc/Safety.antt =====
-- What any sequence of calls can do to the output of the PWM device.
use efc.Common.{ℕ, ◌≤◌, ◌≡◌, true, false, List, [], ◌∷◌, arith, ◌⊎◌, inl, inr}
use efc.Common.Float.{FloatOps, IsIeee}
use efc.Esc.Types.{
  Platform, ErrorType, Protocol, pwm, oneshot_125, oneshot_42, multishot, unknown, World,
  min_pulse_us, max_pulse_us, protocol_period_us, arm_pulse_us,
}
use efc.Esc.Api
use efc.Esc.Api.{pulse_duration_us, drive}
use efc.Esc.Speed.{IsKnown, IsReady, pulse_bounds}

-- The calls of a client after `ESC_Init`.
pub data Call (F : Type 0) : Type 0 where
  set_speed : F → Call F
  stop de_init arm : Call F

module _ (os : Platform) (float : FloatOps) where
  unfoldable pub perform : Call float.F → World os float → ErrorType × World os float
  perform (set_speed speed) w = Api.set_speed os float speed w
  perform stop w = Api.stop os float w
  perform de_init w = Api.de_init os float w
  perform arm w = Api.arm os float w

  unfoldable pub run : List (Call float.F) → World os float → World os float
  run [] w = w
  run (c ∷ cs) w = run cs (perform c w).1

-- A property of the output that survives switching off, waiting, and every pulse in the range of
-- the protocol on one channel of one device.
pub record IsKept (os : Platform) (p : Protocol) (dev : os.Device) (channel : ℕ)
    (Safe : os.State → Type 0) : Type 0 where
  pub off : (s : os.State) → Safe s → Safe (os.pwm_set dev channel 0 0 0 s).1
  pub wait : (ms : ℕ) (s : os.State) → Safe s → Safe (os.k_msleep ms s)
  pub pulse :
      (us : ℕ) (s : os.State)
      → min_pulse_us p ≤ us
      → us ≤ max_pulse_us p
      → Safe s
      → Safe (os.pwm_set dev channel (os.pwm_usec (protocol_period_us p)) (os.pwm_usec us) 0 s).1

module _ {os : Platform} {float : FloatOps} (ieee : IsIeee float) (p : Protocol) (known : IsKnown p)
    (dev : os.Device) (channel : ℕ) {Safe : os.State → Type 0}
    (kept : IsKept os p dev channel Safe) where
  open float use {F, of_ℕ, lt}

  abbrev pub IsSpeed : Call F → Type 0
  IsSpeed (set_speed speed) = ieee.IsNumber speed
  IsSpeed _ = Unit {0}

  abbrev pub AllSpeeds : List (Call F) → Type 0
  AllSpeeds [] = Unit {0}
  AllSpeeds (c ∷ cs) = IsSpeed c × AllSpeeds cs

  -- The instance drives that channel with the settings of the protocol, whether or not it is still
  -- initialized, and the output is safe.
  pub record IsSane (w : World os float) : Type 0 where
    pub protocol : w.esc.protocol ≡ p
    pub period : w.esc.period_us ≡ protocol_period_us p
    pub min : w.esc.min_pulse_duration_us ≡ of_ℕ (min_pulse_us p)
    pub max : w.esc.max_pulse_duration_us ≡ of_ℕ (max_pulse_us p)
    pub device : w.esc.pwm_dev ≡ dev
    pub chan : w.esc.pwm_channel ≡ channel
    pub safe : Safe w.io

  -- Only the output changes.
  pub with_io :
      {w : World os float} (io : os.State) → IsSane w → Safe io → IsSane (record w { io = io })
  with_io io v h = record {
    protocol = v.protocol;
    period = v.period;
    min = v.min;
    max = v.max;
    device = v.device;
    chan = v.chan;
    safe = h;
  }

  drive-pulse :
      (us : ℕ) (w : World os float)
      → IsSane w
      → min_pulse_us p ≤ us
      → us ≤ max_pulse_us p
      → IsSane (drive os float (os.pwm_usec w.esc.period_us) (os.pwm_usec us) w).1
  drive-pulse us w v lo hi =
      with_io _ v (rw (v.device, v.chan, v.period) (kept.pulse us w.io lo hi v.safe))

  drive-off : (w : World os float) → IsSane w → IsSane (drive os float 0 0 w).1
  drive-off w v = with_io _ v (rw (v.device, v.chan) (kept.off w.io v.safe))

  stop-cases :
      (w : World os float)
      → ((Api.stop os float w).1 ≡ w) ⊎ ((Api.stop os float w).1 ≡ (drive os float 0 0 w).1)
  unfolding Api.stop
  stop-cases w = ground arith

  stop-IsSane : (w : World os float) → IsSane w → IsSane (Api.stop os float w).1
  stop-IsSane w v = elim (stop-cases w) [ inl e ↦ rw e v | inr e ↦ rw e (drive-off w v) ]

  set_speed-cases :
      (speed : F) (w : World os float)
      → ((Api.set_speed os float speed w).1 ≡ w)
        ⊎ ((w.esc.initialized ≡ true)
            × (lt (of_ℕ 1) speed ≡ false)
            × (lt speed (of_ℕ 0) ≡ false)
            × ((Api.set_speed os float speed w).1
                ≡ (drive os float
                    (os.pwm_usec w.esc.period_us)
                    (os.pwm_usec (pulse_duration_us os float w.esc speed))
                    w).1))
  unfolding Api.set_speed
  set_speed-cases speed w = ground arith

  pub set_speed-IsSane :
      (speed : F) (w : World os float)
      → ieee.IsNumber speed
      → IsSane w
      → IsSane (Api.set_speed os float speed w).1
  set_speed-IsSane speed w num v = elim (set_speed-cases speed w) [
    | inl e ↦ rw e v
    | inr (init, hi, lo, e) ↦
        let ready : IsReady w.esc p = record {
          known = known;
          initialized = init;
          protocol = v.protocol;
          period = v.period;
          min = v.min;
          max = v.max;
        } in
        let range = pulse_bounds ieee w.esc p speed ready num lo hi in
        rw e (drive-pulse (pulse_duration_us os float w.esc speed) w v range.0 range.1)
  ]

  de_init-cases :
      (w : World os float)
      → ((Api.de_init os float w).1 ≡ w)
        ⊎ ((Api.de_init os float w).1 ≡ record (Api.stop os float w).1 {
          esc = record (Api.stop os float w).1.esc { initialized = false };
        })
  unfolding Api.de_init
  de_init-cases w = ground arith

  de_init-IsSane : (w : World os float) → IsSane w → IsSane (Api.de_init os float w).1
  de_init-IsSane w v = elim (de_init-cases w) [
    | inl e ↦ rw e v
    | inr e ↦
        let after = stop-IsSane w v in
        rw e (record {
          protocol = after.protocol;
          period = after.period;
          min = after.min;
          max = after.max;
          device = after.device;
          chan = after.chan;
          safe = after.safe;
        })
  ]

  arm_pulse_range :
      (q : Protocol)
      → IsKnown q
      → (min_pulse_us q ≤ arm_pulse_us q) × (arm_pulse_us q ≤ max_pulse_us q)
  arm_pulse_range (unknown n) h = absurd h
  arm_pulse_range pwm h = omega arith
  arm_pulse_range oneshot_125 h = omega arith
  arm_pulse_range oneshot_42 h = omega arith
  arm_pulse_range multishot h = omega arith

  arm-cases :
      (w : World os float)
      → let w' =
          (drive os float
            (os.pwm_usec w.esc.period_us)
            (os.pwm_usec (arm_pulse_us w.esc.protocol))
            w).1 in
        ((Api.arm os float w).1 ≡ w)
        ⊎ ((Api.arm os float w).1 ≡ (Api.stop os float w').1)
        ⊎ ((Api.arm os float w).1 ≡ record w' { io = os.k_msleep 3000 w'.io })
  unfolding Api.arm
  arm-cases w = ground arith

  pub arm-IsSane : (w : World os float) → IsSane w → IsSane (Api.arm os float w).1
  arm-IsSane w v =
      let range = arm_pulse_range p known in
      let driven =
        drive-pulse (arm_pulse_us w.esc.protocol) w v (rw v.protocol range.0)
          (rw v.protocol range.1) in
      elim (arm-cases w) [
        | inl e ↦ rw e v
        | inr (inl e) ↦ rw e (stop-IsSane _ driven)
        | inr (inr e) ↦ rw e (with_io _ driven (kept.wait 3000 _ driven.safe))
      ]

  perform-IsSane :
      (c : Call F) (w : World os float) → IsSpeed c → IsSane w → IsSane (perform os float c w).1
  unfolding perform
  perform-IsSane (set_speed speed) w h v = set_speed-IsSane speed w h v
  perform-IsSane stop w h v = stop-IsSane w v
  perform-IsSane de_init w h v = de_init-IsSane w v
  perform-IsSane arm w h v = arm-IsSane w v

  -- For an instance that drives one channel with the settings of one of the four protocols
  -- without offsets, with arithmetic as IsIeee describes it: after any sequence of ESC_SetSpeed
  -- with speeds that are numbers, ESC_Stop, ESC_DeInit and ESC_Arm it still does so, and the
  -- output still has every property that survives switching that channel off, waiting, and
  -- every pulse on it in the range of the protocol.
  pub run-IsSane :
      (cs : List (Call F)) (w : World os float)
      → AllSpeeds cs
      → IsSane w
      → IsSane (run os float cs w)
  unfolding run
  run-IsSane [] w h v = v
  run-IsSane (c ∷ cs) w (hc, hs) v =
      run-IsSane cs (perform os float c w).1 hs (perform-IsSane c w hc v)
