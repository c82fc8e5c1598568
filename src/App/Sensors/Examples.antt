-- ===== src/App/Sensors/Examples.antt =====
-- A sample of each sensor ninety minutes after boot, and the theorems at these samples.
use efc.Common.{ℕ, ◌+◌, ◌≡◌, refl, List, [], ◌∷◌, ◌++◌, pos, is_negative, true, arith}
use efc.Common.Exec.{◌>>=◌}
use efc.App.Logger.{Imu6dofData, BaroData}
use efc.App.Sensors.{
  Drivers, process_imu, process_baro, fetch, get, get_anyway, uptime, publish_imu, publish_baro,
}
use efc.App.Sensors.Stamps.{IsBus}

record Bench : Type 0 where
  imu : List Imu6dofData
  baro : List BaroData
  clock : ℕ

abbrev drivers : Drivers
drivers = record {
  State = Bench;
  SensorValue = ℕ;
  Device = ℕ;
  sensor_sample_fetch = λ dev s. (pos 0, record s { clock = s.clock + 1 });
  sensor_channel_get = λ dev c s. (pos 0, record { x = 1; y = 2; z = 3 }, s);
  sensor_value_to_float = λ v. v;
  k_uptime_get = λ s. s.clock;
  imu_chan_pub = λ m s. (pos 0, record s { imu = s.imu ++ m ∷ [] });
  baro_chan_pub = λ m s. (pos 0, record s { baro = s.baro ++ m ∷ [] });
}

zero_accepted : is_negative (pos 0) ≡ true → ⊥
zero_accepted h = ground (arith, h)

abbrev bench_bus : IsBus drivers
bench_bus = record {
  imu = λ s. s.imu;
  baro = λ s. s.baro;
  fetch_quiet = λ dev s. (refl, refl);
  get_quiet = λ dev c s. (refl, refl);
  imu_taken = λ m s h. refl;
  imu_lost = λ m s h. absurd (zero_accepted h);
  baro_taken = λ m s h. refl;
  baro_lost = λ m s h. absurd (zero_accepted h);
  imu_elsewhere = λ m s. refl;
  baro_elsewhere = λ m s. refl;
}

abbrev later : Bench
later = record { imu = []; baro = []; clock = 5399999 }

-- The same clock, and two different stamps.
stamps_differ :
    ((process_imu drivers 1 later).1.imu
      ≡ record {
        timestamp_us = 5400000000;
        temperature_degc = 1;
        accel_x = 1;
        accel_y = 2;
        accel_z = 3;
        gyro_x = 1;
        gyro_y = 2;
        gyro_z = 3;
      }
        ∷ [])
    × ((process_baro drivers 2 later).1.baro
        ≡ record { timestamp_us = 1105032704; temperature_degc = 1; pressure_kpa = 1 } ∷ [])
unfolding process_imu process_baro fetch get get_anyway uptime publish_imu publish_baro ◌>>=◌
stamps_differ = (refl, refl)
