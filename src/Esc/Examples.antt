-- ===== src/Esc/Examples.antt =====
-- Concrete runs of the driver.
use efc.Common.{ℕ, ◌≤◌, ◌≡◌, refl, true, List, [], ◌∷◌, inl}
use efc.Esc.Types.{success, not_initialized, invalid_stop, invalid_speed_set, pwm, World}
use efc.Esc.Api
use efc.Esc.Speed.{IsReady, pulse_bounds}
use efc.Esc.Safety.{Call, set_speed, stop, de_init, arm, perform, run, IsSane, run-IsSane}
use efc.Esc.Errors.{de_init_silences, de_init_hides_failure, set_speed_refuses}
use efc.Esc.Bench.{thousandths, thousandths_ieee, bench, no_offsets, blank, bench-IsKept}

-- Channel 1 of device 7 for the PWM protocol.
abbrev fitted : World bench thousandths
fitted = record blank {
  esc = record {
    pwm_dev = 7;
    pwm_channel = 1;
    period_us = 4000;
    min_pulse_duration_us = 1000000;
    max_pulse_duration_us = 2000000;
    protocol = pwm;
    initialized = true;
  };
}

init_makes_ready : (Api.init bench thousandths no_offsets 7 1 pwm blank).1 ≡ fitted
unfolding Api.init
init_makes_ready = refl

fitted-IsReady : IsReady fitted.esc pwm
fitted-IsReady = record {
  known = tt;
  initialized = refl;
  protocol = refl;
  period = refl;
  min = refl;
  max = refl;
}

half_speed : (Api.set_speed bench thousandths 500 fitted).1.io.told ≡ (1, 4000000, 1500000) ∷ []
unfolding Api.set_speed Api.pulse_duration_us
half_speed = refl

pulse_bounds_example :
    (1000 ≤ Api.pulse_duration_us bench thousandths fitted.esc 250)
    × (Api.pulse_duration_us bench thousandths fitted.esc 250 ≤ 2000)
unfolding thousandths_ieee
pulse_bounds_example = pulse_bounds thousandths_ieee fitted.esc pwm 250 fitted-IsReady tt refl refl

abbrev flight : List (Call ℕ)
flight = arm ∷ set_speed 300 ∷ set_speed 1001 ∷ stop ∷ de_init ∷ set_speed 900 ∷ []

fitted-IsSane : IsSane thousandths_ieee pwm tt 7 1 bench-IsKept fitted
fitted-IsSane = record {
  protocol = refl;
  period = refl;
  min = refl;
  max = refl;
  device = refl;
  chan = refl;
  safe = tt;
}

run-IsSane_example :
    IsSane thousandths_ieee pwm tt 7 1 bench-IsKept (run bench thousandths flight fitted)
unfolding thousandths_ieee
run-IsSane_example =
    run-IsSane thousandths_ieee pwm tt 7 1 bench-IsKept flight fitted
      (tt, (tt, (tt, (tt, (tt, (tt, tt)))))) fitted-IsSane

de_init_silences_example :
    let w' = (Api.de_init bench thousandths fitted).1 in
    (run bench thousandths flight w' ≡ w')
    × ((perform bench thousandths arm (run bench thousandths flight w')).0 ≡ not_initialized)
de_init_silences_example = de_init_silences flight arm fitted

abbrev stuck : World bench thousandths
stuck = record fitted { io = record { told = []; jammed = true } }

de_init_hides_failure_example :
    let w' = (Api.de_init bench thousandths stuck).1 in
    ((Api.stop bench thousandths stuck).0 ≡ invalid_stop)
    × ((Api.de_init bench thousandths stuck).0 ≡ success)
    × (Api.stop bench thousandths w' ≡ (not_initialized, w'))
    × (w'.io ≡ stuck.io)
de_init_hides_failure_example = de_init_hides_failure stuck refl refl

set_speed_refuses_example :
    Api.set_speed bench thousandths 1001 fitted ≡ (invalid_speed_set, fitted)
set_speed_refuses_example = set_speed_refuses 1001 fitted refl (inl refl)
