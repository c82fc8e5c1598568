-- ===== src/App/Sensors/Keeps.antt =====
-- A sample of a sensor is at most one publication: what the drivers' own calls keep holds until then.
use efc.Common.{◌≡◌, ap, ◌⊎◌, inl, inr, Bool-cases, is_negative}
use efc.App.Sensors.{
  Channel, accel_xyz, gyro_xyz, die_temp, ambient_temp, press, Drivers, process_imu, process_baro,
}
use efc.App.Sensors.Stamps
use efc.App.Sensors.Imu

module _ (os : Drivers) (dev : os.Device) (Q : os.State → Type 0)
    (got : (c : Channel) (t : os.State) → Q t → Q (os.sensor_channel_get dev c t).2) (s : os.State)
    (fetched : Q (os.sensor_sample_fetch dev s).1) where
  pub process_imu-keeps :
      Q (process_imu os dev s).1
      ⊎ ((before : os.State) × ((process_imu os dev s).1
            ≡ (os.imu_chan_pub (Imu.imu_message os dev s) before).1)
          × Q before)
  process_imu-keeps =
      let q2 = got accel_xyz (Imu.s1 os dev s) fetched in
      let q3 = got gyro_xyz (Imu.s2 os dev s) q2 in
      let q4 = got die_temp (Imu.s3 os dev s) q3 in
      elim (Bool-cases (is_negative (os.sensor_sample_fetch dev s).0)) [
        | inl bad ↦ rw (Imu.no_fetch os dev s bad) (inl fetched)
        | inr h ↦
            elim (Bool-cases
              (is_negative (os.sensor_channel_get dev accel_xyz (Imu.s1 os dev s)).0)) [
                | inl bad ↦ rw (Imu.no_accel os dev s h bad) (inl q2)
                | inr g ↦
                    elim (Bool-cases
                      (is_negative (os.sensor_channel_get dev gyro_xyz (Imu.s2 os dev s)).0)) [
                        | inl bad ↦ rw (Imu.no_gyro os dev s h g bad) (inl q3)
                        | inr k ↦
                            inr
                              (Imu.s4 os dev s, ap (λ out. out.1) (Imu.sampled os dev s h g k), q4)
                      ]
              ]
      ]

  pub process_baro-keeps :
      Q (process_baro os dev s).1
      ⊎ ((before : os.State) × ((process_baro os dev s).1
            ≡ (os.baro_chan_pub (Stamps.baro_message os dev s) before).1)
          × Q before)
  process_baro-keeps =
      let q2 = got ambient_temp (Stamps.s1 os dev s) fetched in
      let q3 = got press (Stamps.s2 os dev s) q2 in
      elim (Bool-cases (is_negative (os.sensor_sample_fetch dev s).0)) [
        | inl bad ↦ rw (Stamps.no_fetch os dev s bad) (inl fetched)
        | inr h ↦
            elim (Bool-cases
              (is_negative (os.sensor_channel_get dev ambient_temp (Stamps.s1 os dev s)).0)) [
                | inl bad ↦ rw (Stamps.no_temperature os dev s h bad) (inl q2)
                | inr g ↦
                    elim (Bool-cases
                      (is_negative (os.sensor_channel_get dev press (Stamps.s2 os dev s)).0)) [
                        | inl bad ↦ rw (Stamps.no_pressure os dev s h g bad) (inl q3)
                        | inr k ↦ inr (
                          Stamps.s3 os dev s,
                          ap (λ out. out.1) (Stamps.sampled os dev s h g k),
                          q3,
                        )
                      ]
              ]
      ]
