-- ===== src/App/Sensors/Imu.antt =====
-- What a sample of the IMU leaves on its zbus channel.
use efc.Common.{
  ◌*◌, ◌%◌, ◌^◌, ◌≡◌, refl, ap, ◌∙◌, [], ◌∷◌, ◌++◌, true, false, Bool-cases, inl, inr, ℤ,
  is_negative, arith,
}
use efc.Common.Exec.{Result, ok, err, ◌>>=◌}
use efc.App.Logger.{Imu6dofData}
use efc.App.Sensors.{
  accel_xyz, gyro_xyz, die_temp, Drivers, fetch, get, get_anyway, publish_imu, uptime, process_imu,
}
use efc.App.Sensors.Stamps.{IsBus, clock}

module _ (os : Drivers) (dev : os.Device) where
  abbrev pub s1 : os.State → os.State
  s1 s = (os.sensor_sample_fetch dev s).1

  abbrev pub s2 : os.State → os.State
  s2 s = (os.sensor_channel_get dev accel_xyz (s1 s)).2

  abbrev pub s3 : os.State → os.State
  s3 s = (os.sensor_channel_get dev gyro_xyz (s2 s)).2

  abbrev pub s4 : os.State → os.State
  s4 s = (os.sensor_channel_get dev die_temp (s3 s)).2

  abbrev pub imu_message : os.State → Imu6dofData
  imu_message s = record {
    timestamp_us = clock os dev s * 1000 % 2 ^ 64;
    temperature_degc = os.sensor_value_to_float (os.sensor_channel_get dev die_temp (s3 s)).1.x;
    accel_x = os.sensor_value_to_float (os.sensor_channel_get dev accel_xyz (s1 s)).1.x;
    accel_y = os.sensor_value_to_float (os.sensor_channel_get dev accel_xyz (s1 s)).1.y;
    accel_z = os.sensor_value_to_float (os.sensor_channel_get dev accel_xyz (s1 s)).1.z;
    gyro_x = os.sensor_value_to_float (os.sensor_channel_get dev gyro_xyz (s2 s)).1.x;
    gyro_y = os.sensor_value_to_float (os.sensor_channel_get dev gyro_xyz (s2 s)).1.y;
    gyro_z = os.sensor_value_to_float (os.sensor_channel_get dev gyro_xyz (s2 s)).1.z;
  }

  pub no_fetch :
      (s : os.State)
      → is_negative (os.sensor_sample_fetch dev s).0 ≡ true
      → process_imu os dev s ≡ (err (os.sensor_sample_fetch dev s).0, s1 s)
  unfolding process_imu fetch ◌>>=◌
  no_fetch s h = ground arith

  pub no_accel :
      (s : os.State)
      → is_negative (os.sensor_sample_fetch dev s).0 ≡ false
      → is_negative (os.sensor_channel_get dev accel_xyz (s1 s)).0 ≡ true
      → process_imu os dev s ≡ (err (os.sensor_channel_get dev accel_xyz (s1 s)).0, s2 s)
  unfolding process_imu fetch get uptime ◌>>=◌
  no_accel s h g = ground arith

  pub no_gyro :
      (s : os.State)
      → is_negative (os.sensor_sample_fetch dev s).0 ≡ false
      → is_negative (os.sensor_channel_get dev accel_xyz (s1 s)).0 ≡ false
      → is_negative (os.sensor_channel_get dev gyro_xyz (s2 s)).0 ≡ true
      → process_imu os dev s ≡ (err (os.sensor_channel_get dev gyro_xyz (s2 s)).0, s3 s)
  unfolding process_imu fetch get uptime ◌>>=◌
  no_gyro s h g k = ground arith

  pub sampled :
      (s : os.State)
      → is_negative (os.sensor_sample_fetch dev s).0 ≡ false
      → is_negative (os.sensor_channel_get dev accel_xyz (s1 s)).0 ≡ false
      → is_negative (os.sensor_channel_get dev gyro_xyz (s2 s)).0 ≡ false
      → process_imu os dev s ≡ (ok tt, (os.imu_chan_pub (imu_message s) (s4 s)).1)
  unfolding process_imu fetch get get_anyway uptime publish_imu ◌>>=◌
  sampled s h g k = ground arith

module _ {os : Drivers} (bus : IsBus os) (dev : os.Device) where
  -- The driver that failed, after those that did not, with its code.
  pub data ImuFault (s : os.State) : ℤ → Type 0 where
    failed_fetch :
        is_negative (os.sensor_sample_fetch dev s).0 ≡ true
        → ImuFault s (os.sensor_sample_fetch dev s).0
    failed_accel :
        is_negative (os.sensor_sample_fetch dev s).0 ≡ false
        → is_negative (os.sensor_channel_get dev accel_xyz (s1 os dev s)).0 ≡ true
        → ImuFault s (os.sensor_channel_get dev accel_xyz (s1 os dev s)).0
    failed_gyro :
        is_negative (os.sensor_sample_fetch dev s).0 ≡ false
        → is_negative (os.sensor_channel_get dev accel_xyz (s1 os dev s)).0 ≡ false
        → is_negative (os.sensor_channel_get dev gyro_xyz (s2 os dev s)).0 ≡ true
        → ImuFault s (os.sensor_channel_get dev gyro_xyz (s2 os dev s)).0

  -- No driver has failed.
  pub record ImuSound (s : os.State) : Type 0 where
    pub fetch : is_negative (os.sensor_sample_fetch dev s).0 ≡ false
    pub accel : is_negative (os.sensor_channel_get dev accel_xyz (s1 os dev s)).0 ≡ false
    pub gyro : is_negative (os.sensor_channel_get dev gyro_xyz (s2 os dev s)).0 ≡ false

  -- After a sample of the IMU.
  pub data ImuDone (s : os.State) (out : Result ℤ Unit × os.State) : Type 0 where
    failed :
        (code : ℤ) → ImuFault s code → out.0 ≡ err code → bus.imu out.1 ≡ bus.imu s → ImuDone s out
    lost :
        (m : Imu6dofData) (before : os.State)
        → ImuSound s
        → is_negative (os.imu_chan_pub m before).0 ≡ true
        → out ≡ (ok tt, (os.imu_chan_pub m before).1)
        → bus.imu out.1 ≡ bus.imu s
        → ImuDone s out
    published :
        (m : Imu6dofData)
        → ImuSound s
        → m ≡ imu_message os dev s
        → out.0 ≡ ok tt
        → m.timestamp_us ≡ clock os dev s * 1000 % 2 ^ 64
        → bus.imu out.1 ≡ bus.imu s ++ m ∷ []
        → ImuDone s out

  quiet1 : (s : os.State) → bus.imu (s1 os dev s) ≡ bus.imu s
  quiet1 s = (bus.fetch_quiet dev s).0

  quiet2 : (s : os.State) → bus.imu (s2 os dev s) ≡ bus.imu s
  quiet2 s = (bus.get_quiet dev accel_xyz (s1 os dev s)).0 ∙ quiet1 s

  quiet3 : (s : os.State) → bus.imu (s3 os dev s) ≡ bus.imu s
  quiet3 s = (bus.get_quiet dev gyro_xyz (s2 os dev s)).0 ∙ quiet2 s

  quiet4 : (s : os.State) → bus.imu (s4 os dev s) ≡ bus.imu s
  quiet4 s = (bus.get_quiet dev die_temp (s3 os dev s)).0 ∙ quiet3 s

  pub process_imu_lem : (s : os.State) → ImuDone s (process_imu os dev s)
  process_imu_lem s = elim (Bool-cases (is_negative (os.sensor_sample_fetch dev s).0)) [
    | inl bad ↦ rw (no_fetch os dev s bad) (failed _ (failed_fetch bad) refl (quiet1 s))
    | inr h ↦
        elim (Bool-cases (is_negative (os.sensor_channel_get dev accel_xyz (s1 os dev s)).0)) [
          | inl bad ↦ rw (no_accel os dev s h bad) (failed _ (failed_accel h bad) refl (quiet2 s))
          | inr g ↦
              elim (Bool-cases (is_negative (os.sensor_channel_get dev gyro_xyz (s2 os dev s)).0)) [
                | inl bad ↦
                    rw (no_gyro os dev s h g bad) (failed _ (failed_gyro h g bad) refl (quiet3 s))
                | inr k ↦
                    elim (Bool-cases
                      (is_negative (os.imu_chan_pub (imu_message os dev s) (s4 os dev s)).0)) [
                        | inl bad ↦ rw (sampled os dev s h g k) (
                            lost (imu_message os dev s) (s4 os dev s)
                              (record { fetch = h; accel = g; gyro = k }) bad refl
                              (bus.imu_lost (imu_message os dev s) (s4 os dev s) bad ∙ quiet4 s))
                        | inr taken ↦ rw (sampled os dev s h g k) (
                            published (imu_message os dev s)
                              (record { fetch = h; accel = g; gyro = k }) refl refl refl
                              (bus.imu_taken (imu_message os dev s) (s4 os dev s) taken
                                ∙ ap (λ l. l ++ imu_message os dev s ∷ []) (quiet4 s)))
                      ]
              ]
        ]
  ]
