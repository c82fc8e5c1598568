-- ===== src/App/Sensors.antt =====
-- `process_imu` and `process_baro` of app/src/main.c: one sample of a sensor becomes one message on a
-- zbus channel. The drivers, the clock and zbus are parameters; an early return of a negative code is
-- an error, and the final `return 0` is `ok tt`.
pub mod Stamps
pub mod Imu
pub mod Keeps
pub mod Channels
mod Examples
use efc.Common.{
  ℕ, ◌+◌, ◌*◌, ◌%◌, ◌^◌, ◌≤◌, ◌≡◌, List, [], ◌∷◌, ◌++◌, Bool, true, false, ℤ, is_negative,
  if◌then◌else◌,
}
use efc.Common.Exec.{Result, ok, err, Exec, gets, ◌>>=◌, ◌>>◌}
use efc.App.Logger.{Imu6dofData, BaroData}

pub data Channel : Type 0 where
  accel_xyz gyro_xyz die_temp ambient_temp press : Channel

-- A reading of three axes; of a channel with one value it is the first.
pub record Reading (V : Type 0) : Type 0 where
  pub x : V
  pub y : V
  pub z : V

pub record Drivers : Type 1 where
  pub State : Type 0
  pub SensorValue : Type 0
  pub Device : Type 0
  pub sensor_sample_fetch : Device → State → ℤ × State
  -- the result, and what is in the buffer after the call
  pub sensor_channel_get : Device → Channel → State → ℤ × Reading SensorValue × State
  pub sensor_value_to_float : SensorValue → ℕ
  pub k_uptime_get : State → ℕ
  pub imu_chan_pub : Imu6dofData → State → ℤ × State
  pub baro_chan_pub : BaroData → State → ℤ × State

module _ (os : Drivers) where
  open os use {State, SensorValue, Device, sensor_value_to_float}

  -- `if (ret < 0) return ret;`
  unfoldable pub fetch : Device → Exec State ℤ Unit
  fetch dev s =
      let (ret, s') = os.sensor_sample_fetch dev s in
      (if is_negative ret then err ret else ok tt, s')

  unfoldable pub get : Device → Channel → Exec State ℤ (Reading SensorValue)
  get dev chan s =
      let (ret, value, s') = os.sensor_channel_get dev chan s in
      (if is_negative ret then err ret else ok value, s')

  -- A read whose failure is only reported.
  unfoldable pub get_anyway : Device → Channel → Exec State ℤ (Reading SensorValue)
  get_anyway dev chan s = let (ret, value, s') = os.sensor_channel_get dev chan s in (ok value, s')

  -- A message that the channel does not take is lost; at most this is reported.
  unfoldable pub publish_imu : Imu6dofData → Exec State ℤ Unit
  publish_imu msg s = (ok tt, (os.imu_chan_pub msg s).1)

  unfoldable pub publish_baro : BaroData → Exec State ℤ Unit
  publish_baro msg s = (ok tt, (os.baro_chan_pub msg s).1)

  unfoldable pub uptime : Exec State ℤ ℕ
  uptime = gets (λ s. os.k_uptime_get s)

  unfoldable pub process_imu : Device → Exec State ℤ Unit
  process_imu dev = do
    fetch dev
    timestamp_ms ← uptime
    accel ← get dev accel_xyz
    gyro ← get dev gyro_xyz
    temperature ← get_anyway dev die_temp
    publish_imu (record {
      timestamp_us = timestamp_ms * 1000 % 2 ^ 64;
      temperature_degc = sensor_value_to_float temperature.x;
      accel_x = sensor_value_to_float accel.x;
      accel_y = sensor_value_to_float accel.y;
      accel_z = sensor_value_to_float accel.z;
      gyro_x = sensor_value_to_float gyro.x;
      gyro_y = sensor_value_to_float gyro.y;
      gyro_z = sensor_value_to_float gyro.z;
    })

  -- Here `timestamp_ms` is a `uint32_t`, and so is its product with 1000.
  unfoldable pub process_baro : Device → Exec State ℤ Unit
  process_baro dev = do
    fetch dev
    timestamp_ms ← uptime
    baro_temp ← get dev ambient_temp
    baro_press ← get dev press
    publish_baro (record {
      timestamp_us = timestamp_ms % 2 ^ 32 * 1000 % 2 ^ 32;
      temperature_degc = sensor_value_to_float baro_temp.x;
      pressure_kpa = sensor_value_to_float baro_press.x;
    })
