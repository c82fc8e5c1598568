-- ===== src/Esc/Bench.antt =====
-- Speeds in thousandths for `float`, and a device that records what it is told.
use efc.Common.{
  ℕ, ◌+◌, ◌-◌, ◌*◌, ◌/◌, ◌≤◌, ◌≡◌, Bool, true, false, List, [], ◌∷◌, ℤ, pos, negsuc, arith, ltb,
  none, if◌then◌else◌,
}
use efc.Common.Float.{FloatOps, IsIeee}
use efc.Esc.Types.{Platform, pwm, multishot, Config, World}
use efc.Esc.Safety.{IsKept}

abbrev pub thousandths : FloatOps
thousandths = record {
  F = ℕ;
  of_ℕ = λ n. n * 1000;
  add = λ a b. a + b;
  sub = λ a b. a - b;
  mul = λ a b. a * b / 1000;
  div = λ a b. a * 1000 / b;
  lt = ltb;
  to_u32 = λ a. a / 1000;
}

pub scaled : (n s : ℕ) → n * 1000 * s / 1000 ≡ n * s
scaled n s = omega arith

pub scaled_le : (n s : ℕ) → s ≤ 1000 → n * s ≤ n * 1000
scaled_le n s h = grind arith

unfoldable pub thousandths_ieee : IsIeee thousandths
thousandths_ieee = record {
  IsNumber = λ s. Unit {0};
  sub_exact = λ a b h k. omega arith;
  lt_exact = λ a b h k. ground arith;
  mul_number = λ n s small num lo hi. (tt, ground arith, ground (arith, scaled n s, scaled_le n s));
  mul_zero = λ n small. omega arith;
  mul_one = λ n small. omega arith;
  add_exact = λ a b h. omega arith;
  add_monotone = λ x n c h num lo hi. (tt, ground arith, ground arith);
  truncate = λ x a b h num lo hi. ground arith;
  truncate_exact = λ n h. omega arith;
}

-- What the device was told, last first, as channel, period and pulse; a jammed one refuses.
pub record Bench : Type 0 where
  pub told : List (ℕ × ℕ × ℕ)
  pub jammed : Bool

abbrev pub bench_set : ℕ → ℕ → ℕ → ℕ → ℕ → Bench → ℤ × Bench
bench_set dev channel period pulse flags s =
    if s.jammed
    then (negsuc 4, s)
    else (pos 0, record s { told = (channel, period, pulse) ∷ s.told })

abbrev pub bench : Platform
bench = record {
  Device = ℕ;
  State = Bench;
  device_is_ready = λ dev s. true;
  pwm_set = bench_set;
  k_msleep = λ ms s. s;
  pwm_usec = λ us. us * 1000;
}

abbrev pub no_offsets : Config
no_offsets = record {
  min_pulse_offset_percent = none;
  max_pulse_offset_percent = none;
  max_pulse_offset_val = 0;
}

abbrev pub blank : World bench thousandths
blank = record {
  esc = record {
    pwm_dev = 0;
    pwm_channel = 0;
    period_us = 0;
    min_pulse_duration_us = 0;
    max_pulse_duration_us = 0;
    protocol = multishot;
    initialized = false;
  };
  io = record { told = []; jammed = false };
}

-- Every pulse that was told is a safe one for the PWM protocol: zero, or one to two milliseconds.
abbrev pub Told : List (ℕ × ℕ × ℕ) → Type 0
Told [] = Unit {0}
Told ((channel, period, pulse) ∷ rest) = (pulse ≤ 2000000) × Told rest

abbrev pub SafeBench : Bench → Type 0
SafeBench s = Told s.told

pub bench_off : (s : Bench) → SafeBench s → SafeBench (bench_set 7 1 0 0 0 s).1
bench_off s h = ground arith

pub bench_pulse :
    (us : ℕ) (s : Bench)
    → us ≤ 2000
    → SafeBench s
    → SafeBench (bench_set 7 1 4000000 (us * 1000) 0 s).1
bench_pulse us s k h = ground arith

pub bench-IsKept : IsKept bench pwm 7 1 SafeBench
bench-IsKept = record {
  off = bench_off;
  wait = λ ms s h. h;
  pulse = λ us s lo hi h. bench_pulse us s hi h;
}
