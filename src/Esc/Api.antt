-- ===== src/Esc/Api.antt =====
-- The operations of libs/motor_control/esc/esc.c. Each returns its status and the world.
use efc.Common.{ℕ, ◌%◌, ◌^◌, Bool, true, false, not, ◌||◌, none, some, ℤ, pos, if◌then◌else◌}
use efc.Common.Float.{FloatOps}
use efc.Esc.Types.{
  Platform, ErrorType, success, device_pwm_not_ready, invalid_protocol, invalid_speed_set,
  timer_overflow_error, not_initialized, invalid_stop, invalid_arming, Protocol, pwm, oneshot_125,
  oneshot_42, multishot, unknown, Config, Inst, World, min_pulse_us, max_pulse_us,
  protocol_period_us, arm_pulse_us, arm_duration,
}

-- `if (ret)`
abbrev pub is_nonzero : ℤ → Bool
is_nonzero (pos ℕ.zero) = false
is_nonzero _ = true

module _ (float : FloatOps) where
  open float use {F, of_ℕ, add, sub, mul, div}

  -- `offset` is a `uint8_t`.
  unfoldable pub apply_min_offset : F → F → ℕ → F
  apply_min_offset min max offset =
      add min (mul (sub max min) (div (of_ℕ (offset % 2 ^ 8)) (of_ℕ 100)))

  unfoldable pub apply_max_offset : F → F → ℕ → F
  apply_max_offset min max offset =
      sub max (mul (sub max min) (div (of_ℕ (offset % 2 ^ 8)) (of_ℕ 100)))

  -- The offset that `ESC_Init` applies at the maximum; for PWM it names another option.
  abbrev max_offset : Config → Protocol → ℕ → ℕ
  max_offset cfg pwm percent = cfg.max_pulse_offset_val
  max_offset cfg _ percent = percent

  unfoldable pub configured_min : Config → Protocol → F
  unfolding apply_min_offset
  configured_min cfg p = elim cfg.min_pulse_offset_percent [
    | none ↦ of_ℕ (min_pulse_us p)
    | some percent ↦ apply_min_offset (of_ℕ (min_pulse_us p)) (of_ℕ (max_pulse_us p)) percent
  ]

  unfoldable pub configured_max : Config → Protocol → F
  unfolding apply_max_offset
  configured_max cfg p = elim cfg.max_pulse_offset_percent [
    | none ↦ of_ℕ (max_pulse_us p)
    | some percent ↦
        apply_max_offset (of_ℕ (min_pulse_us p)) (of_ℕ (max_pulse_us p)) (max_offset cfg p percent)
  ]

module _ (os : Platform) (float : FloatOps) (cfg : Config) where
  -- One case of the switch of `ESC_Init` and what follows the switch.
  init_as : Protocol → os.Device → ℕ → World os float → ErrorType × World os float
  unfolding configured_min configured_max
  init_as p pwm_dev pwm_channel w = (
    success,
    record w {
      esc = record {
        pwm_dev = pwm_dev;
        pwm_channel = pwm_channel;
        period_us = protocol_period_us p;
        min_pulse_duration_us = configured_min float cfg p;
        max_pulse_duration_us = configured_max float cfg p;
        protocol = p;
        initialized = true;
      };
    },
  )

  switch_protocol : Protocol → os.Device → ℕ → World os float → ErrorType × World os float
  unfolding init_as
  switch_protocol pwm pwm_dev pwm_channel w = init_as pwm pwm_dev pwm_channel w
  switch_protocol oneshot_125 pwm_dev pwm_channel w = init_as oneshot_125 pwm_dev pwm_channel w
  switch_protocol oneshot_42 pwm_dev pwm_channel w = init_as oneshot_42 pwm_dev pwm_channel w
  switch_protocol multishot pwm_dev pwm_channel w = init_as multishot pwm_dev pwm_channel w
  switch_protocol (unknown n) pwm_dev pwm_channel w =
      (not_initialized, record w { esc = record w.esc { initialized = false } })

  unfoldable pub init : os.Device → ℕ → Protocol → World os float → ErrorType × World os float
  unfolding switch_protocol
  init pwm_dev pwm_channel protocol w =
      if not (os.device_is_ready pwm_dev w.io)
      then (device_pwm_not_ready, w)
      else switch_protocol protocol pwm_dev pwm_channel w

module _ (os : Platform) (float : FloatOps) where
  open float use {F, of_ℕ, add, sub, mul, lt, to_u32}

  -- `pwm_set` on the device and channel of the instance
  abbrev pub drive : ℕ → ℕ → World os float → ℤ × World os float
  drive period pulse w =
      let (ret, io') = os.pwm_set w.esc.pwm_dev w.esc.pwm_channel period pulse 0 w.io in
      (ret, record w { io = io' })

  unfoldable pub pulse_duration_us : Inst os float → F → ℕ
  pulse_duration_us esc speed = to_u32 (
      add (mul (sub esc.max_pulse_duration_us esc.min_pulse_duration_us) speed)
        esc.min_pulse_duration_us)

  unfoldable pub set_speed : F → World os float → ErrorType × World os float
  set_speed speed w =
      if not w.esc.initialized
      then (not_initialized, w)
      else if lt (of_ℕ 1) speed || lt speed (of_ℕ 0)
      then (invalid_speed_set, w)
      else let (ret, w') =
          drive (os.pwm_usec w.esc.period_us) (os.pwm_usec (pulse_duration_us w.esc speed)) w in
        (if is_nonzero ret then timer_overflow_error else success, w')

  unfoldable pub stop : World os float → ErrorType × World os float
  stop w =
      if not w.esc.initialized
      then (not_initialized, w)
      else let (ret, w') = drive 0 0 w in (if is_nonzero ret then invalid_stop else success, w')

  unfoldable pub de_init : World os float → ErrorType × World os float
  unfolding stop
  de_init w =
      if not w.esc.initialized
      then (not_initialized, w)
      else let w' = (stop w).1 in
        (success, record w' { esc = record w'.esc { initialized = false } })

  -- `ESC_Arm` from its call of `pwm_set` on
  arm_with : ℕ → World os float → ErrorType × World os float
  arm_with arm_duty_cycle w =
      let (ret, w') = drive (os.pwm_usec w.esc.period_us) (os.pwm_usec arm_duty_cycle) w in
      if is_nonzero ret
      then (invalid_arming, (stop w').1)
      else (success, record w' { io = os.k_msleep arm_duration w'.io })

  arm_protocol : Protocol → World os float → ErrorType × World os float
  unfolding arm_with
  arm_protocol (unknown n) w = (invalid_protocol, w)
  arm_protocol p w = arm_with (arm_pulse_us p) w

  unfoldable pub arm : World os float → ErrorType × World os float
  unfolding arm_protocol
  arm w = if not w.esc.initialized then (not_initialized, w) else arm_protocol w.esc.protocol w
