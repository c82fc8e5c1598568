-- ===== src/Demos/Esc/Examples.antt =====
-- The demo on the bench of the driver.
use efc.Common.{refl, pos, true}
use efc.Esc.Types.{pwm}
use efc.Esc.Bench.{thousandths, thousandths_ieee, bench, no_offsets, blank, SafeBench, bench-IsKept}
use efc.Demos.Esc.{Board, Config, main}
use efc.Demos.Esc.Sweep.{IsTenth}
use efc.Demos.Esc.Output.{IsApart, HasNumbers, After, Armed, output_lem}

abbrev board : Board
board = record {
  os = bench;
  float = thousandths;
  tenth = 100;
  pwm3 = 7;
  usb_enable = λ s. (pos 0, s);
  sample_usbd_init_device = λ s. (true, s);
  usbd_enable = λ s. (pos 0, s);
  gpio_is_ready_dt = λ s. true;
  gpio_pin_configure_dt = λ s. (pos 0, s);
  gpio_pin_toggle_dt = λ s. (pos 0, s);
}

abbrev cfg : Config
cfg = record {
  console_is_cdc_acm = true;
  usb_device_stack_next = true;
  protocol = pwm;
  esc = no_offsets;
}

abbrev tenths : IsTenth board
tenths = record { reaches = refl; falls = refl }

numbers : HasNumbers board thousandths_ieee
unfolding thousandths_ieee
numbers = record { of_ℕ = λ n. tt; add = λ x h. tt; sub = λ x h. tt }

abbrev apart : IsApart board SafeBench
apart = record {
  usb = λ s h. h;
  usbd_init = λ s h. h;
  usbd = λ s h. h;
  pin = λ s h. h;
  led = λ s h. h;
}

output_lem_example :
    let out = main board cfg 10 1 blank in
    After thousandths_ieee numbers cfg tt bench-IsKept apart
      (Armed thousandths_ieee numbers cfg tt bench-IsKept apart)
      out.0
      out.1
output_lem_example =
    output_lem thousandths_ieee numbers cfg tt bench-IsKept apart refl refl 10 1 blank tt
