-- ===== src/Demos/Esc/Output.antt =====
-- What the demo can do to the output of the PWM device.
use efc.Common.{
  ℕ, zero, suc, ◌≡◌, refl, none, Bool, false, not, ℤ, is_negative, Bool-cases, inl, inr,
}
use efc.Common.Exec.{Result, ok, err, ◌>>=◌, >>=-ok, >>=-err}
use efc.Common.Float.{IsIeee}
use efc.Esc.Types.{device_pwm_not_ready, World}
use efc.Esc.Api
use efc.Esc.Api.{is_nonzero}
use efc.Esc.Speed.{IsKnown, init-IsReady}
use efc.Esc.Safety.{IsKept, IsSane, with_io, arm-IsSane, set_speed-IsSane}
use efc.Demos.Esc.{
  Board, Config, Stop, init_failed, arm_failed, failed, Main, attempt, enable_usb_device_next,
  enable_usb, configure_led, check_pwm, call_esc, prepare, toggle, sleep, blink, change_speed,
  sweep_up, sweep_down, sweep, sweeps, main,
}

-- USB and the LED leave a property of the output.
pub record IsApart (b : Board) (Safe : b.os.State → Type 0) : Type 0 where
  pub usb : (s : b.os.State) → Safe s → Safe (b.usb_enable s).1
  pub usbd_init : (s : b.os.State) → Safe s → Safe (b.sample_usbd_init_device s).1
  pub usbd : (s : b.os.State) → Safe s → Safe (b.usbd_enable s).1
  pub pin : (s : b.os.State) → Safe s → Safe (b.gpio_pin_configure_dt s).1
  pub led : (s : b.os.State) → Safe s → Safe (b.gpio_pin_toggle_dt s).1

-- Steps of 0.1 from a number give a number, which need not be exact.
pub record HasNumbers (b : Board) (ieee : IsIeee b.float) : Type 0 where
  pub of_ℕ : (n : ℕ) → ieee.IsNumber (b.float.of_ℕ n)
  pub add : (x : b.float.F) → ieee.IsNumber x → ieee.IsNumber (b.float.add x b.tenth)
  pub sub : (x : b.float.F) → ieee.IsNumber x → ieee.IsNumber (b.float.sub x b.tenth)

module _ {b : Board} (ieee : IsIeee b.float) (numbers : HasNumbers b ieee) (cfg : Config)
    (known : IsKnown cfg.protocol) {Safe : b.os.State → Type 0}
    (kept : IsKept b.os cfg.protocol b.pwm3 1 Safe) (apart : IsApart b Safe) where
  open b use {os, float}
  open float use {F, of_ℕ, add, sub, lt}

  -- The instance drives channel 1 of the device with the settings of the protocol, and the output is safe.
  abbrev pub Armed : World os float → Type 0
  Armed = IsSane ieee cfg.protocol known b.pwm3 1 kept

  -- After a return of `main` the output is safe.
  abbrev pub After :
      {A : Type 0} → (World os float → Type 0) → Result Stop A → World os float → Type 0
  After Q (ok a) w = Q w
  After Q (err stop) w = Safe w.io

  abbrev Leads :
      {A : Type 0} → (World os float → Type 0) → Main b A → (World os float → Type 0) → Type 0
  Leads P m Q = (w : World os float) → P w → After Q (m w).0 (m w).1

  abbrev SafeOutput : World os float → Type 0
  SafeOutput w = Safe w.io

  bind-Leads :
      {A B : Type 0} (P Q R : World os float → Type 0) (m : Main b A) (f : A → Main b B)
      → Leads P m Q
      → ((a : A) → Leads Q (f a) R)
      → Leads P (m >>= f) R
  bind-Leads {A = A} P Q R m f h k w p = go (m w).0 refl
    where
      go : (r : Result Stop A) → (m w).0 ≡ r → After R ((m >>= f) w).0 ((m >>= f) w).1
      go (ok a) e = rw (>>=-ok m f w e) (k a (m w).1 (rw e at (h w p)))
      go (err stop) e = rw (>>=-err m f w e) (rw e at (h w p))

  attempt-Leads :
      (fails : ℤ → Bool) (call : os.State → ℤ × os.State) (stop : Stop)
      → ((s : os.State) → Safe s → Safe (call s).1)
      → Leads SafeOutput (attempt b fails call stop) SafeOutput
  unfolding attempt
  attempt-Leads fails call stop h w p = elim (Bool-cases (fails (call w.io).0)) [
    | inl e ↦ rw e (h w.io p)
    | inr e ↦ rw e (h w.io p)
  ]

  usb-Leads : Leads SafeOutput (enable_usb b cfg) SafeOutput
  unfolding enable_usb enable_usb_device_next
  usb-Leads w p = elim (Bool-cases (not cfg.console_is_cdc_acm)) [
    | inl e ↦ rw e p
    | inr e ↦ rw e (elim (Bool-cases cfg.usb_device_stack_next) [
      | inl n ↦ rw n (elim (Bool-cases (b.sample_usbd_init_device w.io).0) [
        | inl f ↦
            rw f (attempt-Leads is_nonzero b.usbd_enable _ apart.usbd _ (apart.usbd_init w.io p))
        | inr f ↦ rw f (apart.usbd_init w.io p)
      ])
      | inr n ↦ rw n (attempt-Leads is_nonzero b.usb_enable _ apart.usb w p)
    ])
  ]

  led-Leads : Leads SafeOutput (configure_led b) SafeOutput
  unfolding configure_led
  led-Leads w p = elim (Bool-cases (b.gpio_is_ready_dt w.io)) [
    | inl e ↦ rw e (attempt-Leads is_negative b.gpio_pin_configure_dt _ apart.pin w p)
    | inr e ↦ rw e p
  ]

  check-Leads : Leads SafeOutput (check_pwm b) SafeOutput
  unfolding check_pwm
  check-Leads w p = elim (Bool-cases (os.device_is_ready b.pwm3 w.io)) [
    | inl e ↦ rw e p
    | inr e ↦ rw e p
  ]

  arm-Leads : Leads Armed (call_esc b (Api.arm os float) arm_failed) Armed
  unfolding call_esc
  arm-Leads w p =
      let after = arm-IsSane ieee cfg.protocol known b.pwm3 1 kept w p in
      elim (Bool-cases (failed (Api.arm os float w).0)) [
        | inl e ↦ rw e after.safe
        | inr e ↦ rw e after
      ]

  init-unready :
      (w : World os float)
      → os.device_is_ready b.pwm3 w.io ≡ false
      → Api.init os float cfg.esc b.pwm3 1 cfg.protocol w ≡ (device_pwm_not_ready, w)
  unfolding Api.init
  init-unready w h = rw h refl

  module _ (lo : cfg.esc.min_pulse_offset_percent ≡ none)
      (hi : cfg.esc.max_pulse_offset_percent ≡ none) where
    init-Leads :
        Leads SafeOutput
          (call_esc b (Api.init os float cfg.esc b.pwm3 1 cfg.protocol) init_failed)
          Armed
    unfolding call_esc
    init-Leads w p = elim (Bool-cases (os.device_is_ready b.pwm3 w.io)) [
      | inl e ↦
          let made = init-IsReady cfg.esc cfg.protocol b.pwm3 1 w known lo hi e in
          let instance_ready = made.1 in
          rw made.0 (record {
            protocol = instance_ready.protocol;
            period = instance_ready.period;
            min = instance_ready.min;
            max = instance_ready.max;
            device = made.2;
            chan = made.3;
            safe = rw made.4 p;
          })
      | inr e ↦ rw (init-unready w e) p
    ]

    prepare-Leads : Leads SafeOutput (prepare b cfg) Armed
    unfolding prepare
    prepare-Leads = bind-Leads SafeOutput SafeOutput Armed _ _ usb-Leads (λ usb_done.
        bind-Leads SafeOutput SafeOutput Armed _ _ led-Leads (λ led_done.
          bind-Leads SafeOutput SafeOutput Armed _ _ check-Leads
            (λ checked. bind-Leads SafeOutput Armed Armed _ _ init-Leads (λ set_up. arm-Leads))))

    toggle-Armed : (w : World os float) → Armed w → Armed (toggle b w)
    unfolding toggle
    toggle-Armed w v = with_io ieee cfg.protocol known b.pwm3 1 kept _ v (apart.led w.io v.safe)

    sleep-Armed : (ms : ℕ) (w : World os float) → Armed w → Armed (sleep b ms w)
    unfolding sleep
    sleep-Armed ms w v =
        with_io ieee cfg.protocol known b.pwm3 1 kept _ v (kept.wait ms w.io v.safe)

    blink-Armed : (n : ℕ) (w : World os float) → Armed w → Armed (blink b n w)
    unfolding blink
    blink-Armed zero w v = v
    blink-Armed (suc n) w v = blink-Armed n _ (sleep-Armed _ _ (toggle-Armed w v))

    change_speed-Armed :
        (i : F) (w : World os float) → ieee.IsNumber i → Armed w → Armed (change_speed b i w)
    unfolding change_speed
    change_speed-Armed i w num v = sleep-Armed _ _ (
        set_speed-IsSane ieee cfg.protocol known b.pwm3 1 kept i (toggle b w) num
          (toggle-Armed w v))

    sweep_up-Armed :
        (fuel : ℕ) (i : F) (w : World os float)
        → ieee.IsNumber i
        → Armed w
        → Armed (sweep_up b fuel i w)
    unfolding sweep_up
    sweep_up-Armed zero i w num v = v
    sweep_up-Armed (suc n) i w num v = elim (Bool-cases (lt i (of_ℕ 1))) [
      | inl e ↦
          rw e
            (sweep_up-Armed n (add i b.tenth) _ (numbers.add i num) (change_speed-Armed i w num v))
      | inr e ↦ rw e v
    ]

    sweep_down-Armed :
        (fuel : ℕ) (i : F) (w : World os float)
        → ieee.IsNumber i
        → Armed w
        → Armed (sweep_down b fuel i w)
    unfolding sweep_down
    sweep_down-Armed zero i w num v = v
    sweep_down-Armed (suc n) i w num v = elim (Bool-cases (lt (of_ℕ 0) i)) [
      | inl e ↦
          rw e (
            sweep_down-Armed n (sub i b.tenth) _ (numbers.sub i num) (change_speed-Armed i w num v))
      | inr e ↦ rw e v
    ]

    sweeps-Armed : (fuel n : ℕ) (w : World os float) → Armed w → Armed (sweeps b fuel n w)
    unfolding sweeps sweep
    sweeps-Armed fuel zero w v = v
    sweeps-Armed fuel (suc n) w v = sweeps-Armed fuel n _ (
        sweep_down-Armed fuel (of_ℕ 1) _ (numbers.of_ℕ 1)
          (sweep_up-Armed fuel (of_ℕ 0) w (numbers.of_ℕ 0) v))

    -- For one of the four protocols without offsets, with arithmetic as IsIeee describes it
    -- and numbers as HasNumbers describes them: whatever fails in main of the demo, and for
    -- any number of its sweeps, the output has every property that it had before and that
    -- survives switching channel 1 off, waiting, USB, the LED, and every pulse in the range
    -- of the protocol; and once main is in its loop, the instance drives channel 1 of the
    -- device with the settings of the protocol.
    pub output_lem :
        (fuel n : ℕ) (w : World os float)
        → Safe w.io
        → After Armed (main b cfg fuel n w).0 (main b cfg fuel n w).1
    unfolding main
    output_lem fuel n =
        bind-Leads SafeOutput Armed Armed (prepare b cfg) _ prepare-Leads
          (λ done w v. sweeps-Armed fuel n (blink b 10 w) (blink-Armed 10 w v))
