-- ===== src/App/Sensors/Stamps.antt =====
-- What a sample leaves on the zbus channels.
use efc.Common.{
  ℕ, ◌*◌, ◌%◌, ◌^◌, ◌≡◌, refl, ap, ◌∙◌, List, [], ◌∷◌, ◌++◌, true, false, Bool-cases, inl, inr, ℤ,
  is_negative, arith,
}
use efc.Common.Exec.{Result, ok, err, ◌>>=◌}
use efc.App.Logger.{Imu6dofData, BaroData}
use efc.App.Sensors.{
  Channel, ambient_temp, press, Drivers, fetch, get, publish_baro, uptime, process_baro,
}

-- The messages that the channels took, and the clock. A publication that returns a negative code has
-- left the channel; no driver publishes.
pub record IsBus (os : Drivers) : Type 0 where
  pub imu : os.State → List Imu6dofData
  pub baro : os.State → List BaroData
  pub fetch_quiet :
      (dev : os.Device) (s : os.State)
      → (imu (os.sensor_sample_fetch dev s).1 ≡ imu s)
        × (baro (os.sensor_sample_fetch dev s).1 ≡ baro s)
  pub get_quiet :
      (dev : os.Device) (c : Channel) (s : os.State)
      → (imu (os.sensor_channel_get dev c s).2 ≡ imu s)
        × (baro (os.sensor_channel_get dev c s).2 ≡ baro s)
  pub imu_taken :
      (m : Imu6dofData) (s : os.State)
      → is_negative (os.imu_chan_pub m s).0 ≡ false
      → imu (os.imu_chan_pub m s).1 ≡ imu s ++ m ∷ []
  pub imu_lost :
      (m : Imu6dofData) (s : os.State)
      → is_negative (os.imu_chan_pub m s).0 ≡ true
      → imu (os.imu_chan_pub m s).1 ≡ imu s
  pub baro_taken :
      (m : BaroData) (s : os.State)
      → is_negative (os.baro_chan_pub m s).0 ≡ false
      → baro (os.baro_chan_pub m s).1 ≡ baro s ++ m ∷ []
  pub baro_lost :
      (m : BaroData) (s : os.State)
      → is_negative (os.baro_chan_pub m s).0 ≡ true
      → baro (os.baro_chan_pub m s).1 ≡ baro s
  -- a publication leaves the other channel alone
  pub imu_elsewhere : (m : Imu6dofData) (s : os.State) → baro (os.imu_chan_pub m s).1 ≡ baro s
  pub baro_elsewhere : (m : BaroData) (s : os.State) → imu (os.baro_chan_pub m s).1 ≡ imu s

module _ (os : Drivers) (dev : os.Device) where
  -- The clock is read after the fetch.
  abbrev pub clock : os.State → ℕ
  clock s = os.k_uptime_get (os.sensor_sample_fetch dev s).1

  abbrev pub s1 : os.State → os.State
  s1 s = (os.sensor_sample_fetch dev s).1

  abbrev pub s2 : os.State → os.State
  s2 s = (os.sensor_channel_get dev ambient_temp (s1 s)).2

  abbrev pub s3 : os.State → os.State
  s3 s = (os.sensor_channel_get dev press (s2 s)).2

  abbrev pub baro_message : os.State → BaroData
  baro_message s = record {
    timestamp_us = clock s % 2 ^ 32 * 1000 % 2 ^ 32;
    temperature_degc = os.sensor_value_to_float (os.sensor_channel_get dev ambient_temp (s1 s)).1.x;
    pressure_kpa = os.sensor_value_to_float (os.sensor_channel_get dev press (s2 s)).1.x;
  }

  pub no_fetch :
      (s : os.State)
      → is_negative (os.sensor_sample_fetch dev s).0 ≡ true
      → process_baro os dev s ≡ (err (os.sensor_sample_fetch dev s).0, s1 s)
  unfolding process_baro fetch ◌>>=◌
  no_fetch s h = ground arith

  pub no_temperature :
      (s : os.State)
      → is_negative (os.sensor_sample_fetch dev s).0 ≡ false
      → is_negative (os.sensor_channel_get dev ambient_temp (s1 s)).0 ≡ true
      → process_baro os dev s ≡ (err (os.sensor_channel_get dev ambient_temp (s1 s)).0, s2 s)
  unfolding process_baro fetch get uptime ◌>>=◌
  no_temperature s h g = ground arith

  pub no_pressure :
      (s : os.State)
      → is_negative (os.sensor_sample_fetch dev s).0 ≡ false
      → is_negative (os.sensor_channel_get dev ambient_temp (s1 s)).0 ≡ false
      → is_negative (os.sensor_channel_get dev press (s2 s)).0 ≡ true
      → process_baro os dev s ≡ (err (os.sensor_channel_get dev press (s2 s)).0, s3 s)
  unfolding process_baro fetch get uptime ◌>>=◌
  no_pressure s h g k = ground arith

  pub sampled :
      (s : os.State)
      → is_negative (os.sensor_sample_fetch dev s).0 ≡ false
      → is_negative (os.sensor_channel_get dev ambient_temp (s1 s)).0 ≡ false
      → is_negative (os.sensor_channel_get dev press (s2 s)).0 ≡ false
      → process_baro os dev s ≡ (ok tt, (os.baro_chan_pub (baro_message s) (s3 s)).1)
  unfolding process_baro fetch get uptime publish_baro ◌>>=◌
  sampled s h g k = ground arith

module _ {os : Drivers} (bus : IsBus os) (dev : os.Device) where
  -- The driver that failed, after those that did not, with its code.
  pub data BaroFault (s : os.State) : ℤ → Type 0 where
    failed_fetch :
        is_negative (os.sensor_sample_fetch dev s).0 ≡ true
        → BaroFault s (os.sensor_sample_fetch dev s).0
    failed_temperature :
        is_negative (os.sensor_sample_fetch dev s).0 ≡ false
        → is_negative (os.sensor_channel_get dev ambient_temp (s1 os dev s)).0 ≡ true
        → BaroFault s (os.sensor_channel_get dev ambient_temp (s1 os dev s)).0
    failed_pressure :
        is_negative (os.sensor_sample_fetch dev s).0 ≡ false
        → is_negative (os.sensor_channel_get dev ambient_temp (s1 os dev s)).0 ≡ false
        → is_negative (os.sensor_channel_get dev press (s2 os dev s)).0 ≡ true
        → BaroFault s (os.sensor_channel_get dev press (s2 os dev s)).0

  -- No driver has failed.
  pub record BaroSound (s : os.State) : Type 0 where
    pub fetch : is_negative (os.sensor_sample_fetch dev s).0 ≡ false
    pub temperature : is_negative (os.sensor_channel_get dev ambient_temp (s1 os dev s)).0 ≡ false
    pub pressure : is_negative (os.sensor_channel_get dev press (s2 os dev s)).0 ≡ false

  -- After a sample of the barometer.
  pub data BaroDone (s : os.State) (out : Result ℤ Unit × os.State) : Type 0 where
    failed :
        (code : ℤ)
        → BaroFault s code
        → out.0 ≡ err code
        → bus.baro out.1 ≡ bus.baro s
        → BaroDone s out
    lost :
        (m : BaroData) (before : os.State)
        → BaroSound s
        → is_negative (os.baro_chan_pub m before).0 ≡ true
        → out ≡ (ok tt, (os.baro_chan_pub m before).1)
        → bus.baro out.1 ≡ bus.baro s
        → BaroDone s out
    published :
        (m : BaroData)
        → BaroSound s
        → m ≡ baro_message os dev s
        → out.0 ≡ ok tt
        → m.timestamp_us ≡ clock os dev s * 1000 % 2 ^ 32
        → bus.baro out.1 ≡ bus.baro s ++ m ∷ []
        → BaroDone s out

  quiet1 : (s : os.State) → bus.baro (s1 os dev s) ≡ bus.baro s
  quiet1 s = (bus.fetch_quiet dev s).1

  quiet2 : (s : os.State) → bus.baro (s2 os dev s) ≡ bus.baro s
  quiet2 s = (bus.get_quiet dev ambient_temp (s1 os dev s)).1 ∙ quiet1 s

  quiet3 : (s : os.State) → bus.baro (s3 os dev s) ≡ bus.baro s
  quiet3 s = (bus.get_quiet dev press (s2 os dev s)).1 ∙ quiet2 s

  pub process_baro_lem : (s : os.State) → BaroDone s (process_baro os dev s)
  process_baro_lem s = elim (Bool-cases (is_negative (os.sensor_sample_fetch dev s).0)) [
    | inl bad ↦ rw (no_fetch os dev s bad) (failed _ (failed_fetch bad) refl (quiet1 s))
    | inr h ↦
        elim (Bool-cases (is_negative (os.sensor_channel_get dev ambient_temp (s1 os dev s)).0)) [
          | inl bad ↦
              rw (no_temperature os dev s h bad)
                (failed _ (failed_temperature h bad) refl (quiet2 s))
          | inr g ↦
              elim (Bool-cases (is_negative (os.sensor_channel_get dev press (s2 os dev s)).0)) [
                | inl bad ↦
                    rw (no_pressure os dev s h g bad)
                      (failed _ (failed_pressure h g bad) refl (quiet3 s))
                | inr k ↦
                    elim (Bool-cases
                      (is_negative (os.baro_chan_pub (baro_message os dev s) (s3 os dev s)).0)) [
                        | inl bad ↦ rw (sampled os dev s h g k) (
                            lost (baro_message os dev s) (s3 os dev s)
                              (record { fetch = h; temperature = g; pressure = k }) bad refl
                              (bus.baro_lost (baro_message os dev s) (s3 os dev s) bad ∙ quiet3 s))
                        | inr taken ↦ rw (sampled os dev s h g k) (
                            published (baro_message os dev s)
                              (record { fetch = h; temperature = g; pressure = k }) refl refl
                              (omega arith)
                              (bus.baro_taken (baro_message os dev s) (s3 os dev s) taken
                                ∙ ap (λ l. l ++ baro_message os dev s ∷ []) (quiet3 s)))
                      ]
              ]
        ]
  ]
