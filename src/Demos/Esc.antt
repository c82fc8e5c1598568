-- ===== src/Demos/Esc.antt =====
-- demos/esc/src/main.c: arms an ESC and sweeps its speed up and down. What it calls of Zephyr beside
-- the platform of the driver is a parameter.
pub mod Sweep
pub mod Output
mod Examples
use efc.Common.{ℕ, zero, suc, Bool, true, false, not, ℤ, is_negative, if◌then◌else◌}
use efc.Common.Exec.{Result, ok, err, Exec, pure, ◌>>=◌, ◌>>◌}
use efc.Common.Float.{FloatOps}
use efc.Esc.Types
use efc.Esc.Types.{Platform, ErrorType, success, Protocol, World}
use efc.Esc.Api
use efc.Esc.Api.{is_nonzero}

pub record Board : Type 1 where
  pub os : Platform
  pub float : FloatOps
  -- the literal 0.1f
  pub tenth : float.F
  pub pwm3 : os.Device
  pub usb_enable : os.State → ℤ × os.State
  -- false for NULL
  pub sample_usbd_init_device : os.State → Bool × os.State
  pub usbd_enable : os.State → ℤ × os.State
  pub gpio_is_ready_dt : os.State → Bool
  pub gpio_pin_configure_dt : os.State → ℤ × os.State
  pub gpio_pin_toggle_dt : os.State → ℤ × os.State

-- The device tree's choice of a console, and the Kconfig options, also those of the driver.
pub record Config : Type 0 where
  pub console_is_cdc_acm : Bool
  pub usb_device_stack_next : Bool
  pub protocol : Protocol
  pub esc : Types.Config

-- Where `main` returns.
pub data Stop : Type 0 where
  usb_failed led_not_ready led_not_configured pwm_not_ready init_failed arm_failed : Stop

-- `ESC_SPEED_CHANGE_MS` and `ESC_ARMED_INDICATOR_MS`
abbrev pub esc_speed_change_ms : ℕ
esc_speed_change_ms = 1000

abbrev pub esc_armed_indicator_ms : ℕ
esc_armed_indicator_ms = 100

-- `status != ESC_SUCCESS`
abbrev pub failed : ErrorType → Bool
failed success = false
failed _ = true

module _ (b : Board) where
  open b use {os, float}
  open float use {F, of_ℕ, add, sub, lt}

  -- The instance `esc1`, which nothing sets before `ESC_Init`, and everything outside.
  abbrev pub Main : Type 0 → Type 0
  Main A = Exec (World os float) Stop A

  unfoldable pub attempt : (ℤ → Bool) → (os.State → ℤ × os.State) → Stop → Main Unit
  attempt fails call stop w =
      let (ret, io') = call w.io in (if fails ret then err stop else ok tt, record w { io = io' })

  unfoldable pub enable_usb_device_next : Main Unit
  enable_usb_device_next w =
      let (found, io') = b.sample_usbd_init_device w.io in
      if found
      then attempt is_nonzero b.usbd_enable usb_failed (record w { io = io' })
      else (err usb_failed, record w { io = io' })

  unfoldable pub enable_usb : Config → Main Unit
  enable_usb cfg w =
      if not cfg.console_is_cdc_acm
      then (ok tt, w)
      else if cfg.usb_device_stack_next
      then enable_usb_device_next w
      else attempt is_nonzero b.usb_enable usb_failed w

  unfoldable pub configure_led : Main Unit
  configure_led w =
      if b.gpio_is_ready_dt w.io
      then attempt is_negative b.gpio_pin_configure_dt led_not_configured w
      else (err led_not_ready, w)

  unfoldable pub check_pwm : Main Unit
  check_pwm w = (if os.device_is_ready b.pwm3 w.io then ok tt else err pwm_not_ready, w)

  -- A call of the driver whose failure ends `main`.
  unfoldable pub call_esc : (World os float → ErrorType × World os float) → Stop → Main Unit
  call_esc call stop w =
      let (status, w') = call w in (if failed status then err stop else ok tt, w')

  unfoldable pub prepare : Config → Main Unit
  prepare cfg = do
    enable_usb cfg
    configure_led
    check_pwm
    call_esc (Api.init os float cfg.esc b.pwm3 1 cfg.protocol) init_failed
    call_esc (Api.arm os float) arm_failed

  -- A toggle of the LED, whose result is not looked at.
  unfoldable pub toggle : World os float → World os float
  toggle w = record w { io = (b.gpio_pin_toggle_dt w.io).1 }

  unfoldable pub sleep : ℕ → World os float → World os float
  sleep ms w = record w { io = os.k_msleep ms w.io }

  unfoldable pub blink : ℕ → World os float → World os float
  blink zero w = w
  blink (suc n) w = blink n (sleep esc_armed_indicator_ms (toggle w))

  -- The body of both loops over the speed; the result of `ESC_SetSpeed` is not looked at.
  unfoldable pub change_speed : F → World os float → World os float
  change_speed i w = sleep esc_speed_change_ms (Api.set_speed os float i (toggle w)).1

  -- `for (float i = ...; i < 1.0f; i += 0.1f)`, for so many rounds at most.
  unfoldable pub sweep_up : ℕ → F → World os float → World os float
  sweep_up zero i w = w
  sweep_up (suc n) i w =
      let rest = sweep_up n (add i b.tenth) (change_speed i w) in if lt i (of_ℕ 1) then rest else w

  -- `for (float i = ...; i > 0.0f; i -= 0.1f)`
  unfoldable pub sweep_down : ℕ → F → World os float → World os float
  sweep_down zero i w = w
  sweep_down (suc n) i w =
      let rest = sweep_down n (sub i b.tenth) (change_speed i w) in
      if lt (of_ℕ 0) i then rest else w

  -- The body of the endless loop.
  unfoldable pub sweep : ℕ → World os float → World os float
  sweep fuel w = sweep_down fuel (of_ℕ 1) (sweep_up fuel (of_ℕ 0) w)

  unfoldable pub sweeps : ℕ → ℕ → World os float → World os float
  sweeps fuel zero w = w
  sweeps fuel (suc n) w = sweeps fuel n (sweep fuel w)

  -- `main`, for so many rounds of the endless loop.
  unfoldable pub main : Config → ℕ → ℕ → Main Unit
  main cfg fuel n = do prepare cfg; (λ w. (ok tt, sweeps fuel n (blink 10 w)))
