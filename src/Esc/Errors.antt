-- ===== src/Esc/Errors.antt =====
-- Refusals and failures of the driver, and what a client can rely on after them.
use efc.Common.{◌≡◌, refl, ap, ◌∙◌, true, false, List, [], ◌∷◌, arith, ◌⊎◌}
use efc.Common.Float.{FloatOps, IsIeee}
use efc.Esc.Types.{
  Platform, success, not_initialized, invalid_speed_set, invalid_stop, Protocol, pwm, oneshot_125,
  oneshot_42, multishot, unknown, World, min_pulse_us, arm_pulse_us, arm_duration,
}
use efc.Esc.Api
use efc.Esc.Api.{is_nonzero, drive, pulse_duration_us}
use efc.Esc.Speed.{IsReady, pulse_ends}
use efc.Esc.Safety.{Call, set_speed, stop, de_init, arm, perform, run}

arm_min : (p : Protocol) → arm_pulse_us p ≡ min_pulse_us p
arm_min pwm = refl
arm_min oneshot_125 = refl
arm_min oneshot_42 = refl
arm_min multishot = refl
arm_min (unknown n) = refl

module _ {os : Platform} {float : FloatOps} where
  open float use {F, of_ℕ, lt}

  perform_uninitialized :
      (c : Call F) (w : World os float)
      → w.esc.initialized ≡ false
      → perform os float c w ≡ (not_initialized, w)
  unfolding perform Api.set_speed Api.stop Api.de_init Api.arm
  perform_uninitialized (set_speed speed) w h = ground arith
  perform_uninitialized stop w h = ground arith
  perform_uninitialized de_init w h = ground arith
  perform_uninitialized arm w h = ground arith

  run_uninitialized :
      (cs : List (Call F)) (w : World os float) → w.esc.initialized ≡ false → run os float cs w ≡ w
  unfolding run
  run_uninitialized [] w h = refl
  run_uninitialized (c ∷ cs) w h =
      ap (λ o. run os float cs o.1) (perform_uninitialized c w h) ∙ run_uninitialized cs w h

  de_init_uninitialized : (w : World os float) → (Api.de_init os float w).1.esc.initialized ≡ false
  unfolding Api.de_init
  de_init_uninitialized w = ground arith

  -- After ESC_DeInit every call of ESC_SetSpeed, ESC_Stop, ESC_DeInit and ESC_Arm returns
  -- ESC_NOT_INITIALIZED, and no sequence of them touches the device or the instance.
  pub de_init_silences :
      (cs : List (Call F)) (c : Call F) (w : World os float)
      → let w' = (Api.de_init os float w).1 in
        (run os float cs w' ≡ w') × ((perform os float c (run os float cs w')).0 ≡ not_initialized)
  de_init_silences cs c w =
      let quiet = run_uninitialized cs (Api.de_init os float w).1 (de_init_uninitialized w) in
      (
        quiet,
        rw quiet (
            ap (λ o. o.0)
              (perform_uninitialized c (Api.de_init os float w).1 (de_init_uninitialized w))),
      )

  -- For an initialized instance whose device refuses to switch the channel off: ESC_Stop
  -- reports it, ESC_DeInit reports success, and from then on ESC_Stop returns
  -- ESC_NOT_INITIALIZED without reaching the device, whose output is the one after the refused
  -- attempt.
  pub de_init_hides_failure :
      (w : World os float)
      → w.esc.initialized ≡ true
      → is_nonzero (os.pwm_set w.esc.pwm_dev w.esc.pwm_channel 0 0 0 w.io).0 ≡ true
      → let w' = (Api.de_init os float w).1 in
        ((Api.stop os float w).0 ≡ invalid_stop)
        × ((Api.de_init os float w).0 ≡ success)
        × (Api.stop os float w' ≡ (not_initialized, w'))
        × (w'.io ≡ (os.pwm_set w.esc.pwm_dev w.esc.pwm_channel 0 0 0 w.io).1)
  unfolding Api.de_init Api.stop
  de_init_hides_failure w h e = ground arith

  -- A speed above 1 or below 0 is refused, and the device is not touched.
  pub set_speed_refuses :
      (speed : F) (w : World os float)
      → w.esc.initialized ≡ true
      → (lt (of_ℕ 1) speed ≡ true) ⊎ (lt speed (of_ℕ 0) ≡ true)
      → Api.set_speed os float speed w ≡ (invalid_speed_set, w)
  unfolding Api.set_speed
  set_speed_refuses speed w h out = ground arith

  arm_known :
      (w : World os float) (p : Protocol)
      → IsReady w.esc p
      → is_nonzero
          (os.pwm_set w.esc.pwm_dev w.esc.pwm_channel
            (os.pwm_usec w.esc.period_us)
            (os.pwm_usec (arm_pulse_us p))
            0
            w.io).0
        ≡ false
      → Api.arm os float w ≡ (
        success,
        record w {
          io =
              os.k_msleep arm_duration
                (os.pwm_set w.esc.pwm_dev w.esc.pwm_channel
                  (os.pwm_usec w.esc.period_us)
                  (os.pwm_usec (arm_pulse_us p))
                  0
                  w.io).1;
        },
      )
  unfolding Api.arm
  arm_known w (unknown n) r e = absurd r.known
  arm_known w pwm r e = ground (arith, r.protocol, r.initialized)
  arm_known w oneshot_125 r e = ground (arith, r.protocol, r.initialized)
  arm_known w oneshot_42 r e = ground (arith, r.protocol, r.initialized)
  arm_known w multishot r e = ground (arith, r.protocol, r.initialized)

  set_speed_ready :
      (speed : F) (w : World os float)
      → w.esc.initialized ≡ true
      → lt (of_ℕ 1) speed ≡ false
      → lt speed (of_ℕ 0) ≡ false
      → (Api.set_speed os float speed w).1
        ≡ (drive os float
            (os.pwm_usec w.esc.period_us)
            (os.pwm_usec (pulse_duration_us os float w.esc speed))
            w).1
  unfolding Api.set_speed
  set_speed_ready speed w h hi lo = ground arith

  -- For an instance as ESC_Init leaves it for one of the four protocols without offsets, with
  -- arithmetic as IsIeee describes it, where the device accepts the arming pulse: ESC_Arm
  -- succeeds and leaves what ESC_SetSpeed at 0 leaves followed by a sleep of three seconds.
  pub arm_is_zero_speed :
      (ieee : IsIeee float) (w : World os float) (p : Protocol)
      → IsReady w.esc p
      → is_nonzero
          (os.pwm_set w.esc.pwm_dev w.esc.pwm_channel
            (os.pwm_usec w.esc.period_us)
            (os.pwm_usec (arm_pulse_us p))
            0
            w.io).0
        ≡ false
      → ((Api.arm os float w).0 ≡ success)
        × ((Api.arm os float w).1.io ≡ os.k_msleep 3000 (Api.set_speed os float (of_ℕ 0) w).1.io)
  arm_is_zero_speed ieee w p r e =
      rw
        (
          arm_known w p r e,
          set_speed_ready (of_ℕ 0) w r.initialized (ieee.lt_exact 1 0 (omega arith) (omega arith))
              (ieee.lt_exact 0 0 (omega arith) (omega arith)),
          (pulse_ends ieee w.esc p r).0,
          arm_min p,
        )
        (refl, refl)
