-- ===== src/Esc/Types.antt =====
-- The types and constants of libs/motor_control/esc, and what it calls of Zephyr.
use efc.Common.{ℕ, ℤ, Bool, Option}
use efc.Common.Float.{FloatOps}

-- The PWM driver and the scheduler, with everything behind them.
pub record Platform : Type 1 where
  pub Device : Type 0
  pub State : Type 0
  pub device_is_ready : Device → State → Bool
  -- device, channel, period and pulse in nanoseconds, flags
  pub pwm_set : Device → ℕ → ℕ → ℕ → ℕ → State → ℤ × State
  pub k_msleep : ℕ → State → State
  -- the macro PWM_USEC
  pub pwm_usec : ℕ → ℕ

-- `ESC_Error_Type`
pub data ErrorType : Type 0 where
  success device_pwm_not_ready invalid_protocol invalid_speed_set timer_overflow_error : ErrorType
  not_initialized invalid_stop invalid_arming : ErrorType

-- `ESC_Protocol_Type`; `unknown` is any other value that the enum's integer can have.
pub data Protocol : Type 0 where
  pwm oneshot_125 oneshot_42 multishot : Protocol
  unknown : ℕ → Protocol

-- The Kconfig options. An option that is off has no value; ESC_MAX_PULSE_OFFSET_VAL is not declared
-- in any Kconfig file.
pub record Config : Type 0 where
  pub min_pulse_offset_percent : Option ℕ
  pub max_pulse_offset_percent : Option ℕ
  pub max_pulse_offset_val : ℕ

-- `ESC_Inst_Type`
pub record Inst (os : Platform) (float : FloatOps) : Type 0 where
  pub pwm_dev : os.Device
  pub pwm_channel : ℕ
  pub period_us : ℕ
  pub min_pulse_duration_us : float.F
  pub max_pulse_duration_us : float.F
  pub protocol : Protocol
  pub initialized : Bool

-- An instance and the world that its operations act on.
pub record World (os : Platform) (float : FloatOps) : Type 0 where
  pub esc : Inst os float
  pub io : os.State

-- Minimum and maximum pulse, period and arming pulse of each protocol in microseconds; an unknown
-- protocol has none.
abbrev pub min_pulse_us : Protocol → ℕ
min_pulse_us pwm = 1000
min_pulse_us oneshot_125 = 125
min_pulse_us oneshot_42 = 42
min_pulse_us multishot = 5
min_pulse_us (unknown n) = 0

abbrev pub max_pulse_us : Protocol → ℕ
max_pulse_us pwm = 2000
max_pulse_us oneshot_125 = 250
max_pulse_us oneshot_42 = 84
max_pulse_us multishot = 25
max_pulse_us (unknown n) = 0

abbrev pub protocol_period_us : Protocol → ℕ
protocol_period_us pwm = 4000
protocol_period_us oneshot_125 = 500
protocol_period_us oneshot_42 = 168
protocol_period_us multishot = 50
protocol_period_us (unknown n) = 0

abbrev pub arm_pulse_us : Protocol → ℕ
arm_pulse_us pwm = 1000
arm_pulse_us oneshot_125 = 125
arm_pulse_us oneshot_42 = 42
arm_pulse_us multishot = 5
arm_pulse_us (unknown n) = 0

abbrev pub arm_duration : ℕ
arm_duration = 3000
