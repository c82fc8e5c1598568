-- ===== src/App/Sensors/Channels.antt =====
-- A sample of a sensor publishes on its own channel only, and once if nothing fails.
use efc.Common.{
  ◌+◌, ◌≤◌, ◌≡◌, ap, ◌∙◌, List, [], ◌∷◌, ◌++◌, false, Bool-cases, inl, inr, ℤ, is_negative, length,
  length-append, arith,
}
use efc.Common.Exec.{Result}
use efc.App.Logger.{Imu6dofData, BaroData}
use efc.App.Sensors.{
  Channel, accel_xyz, gyro_xyz, die_temp, ambient_temp, press, Drivers, process_imu, process_baro,
}
use efc.App.Sensors.Stamps.{IsBus, BaroDone, failed, lost, published, process_baro_lem}
use efc.App.Sensors.Imu.{ImuDone, failed, lost, published, process_imu_lem}
use efc.App.Sensors.Stamps
use efc.App.Sensors.Imu

-- No driver fails, and the channels take every message.
pub record Works (os : Drivers) : Type 0 where
  pub fetches :
      (dev : os.Device) (s : os.State) → is_negative (os.sensor_sample_fetch dev s).0 ≡ false
  pub gets :
      (dev : os.Device) (c : Channel) (s : os.State)
      → is_negative (os.sensor_channel_get dev c s).0 ≡ false
  pub takes_imu : (m : Imu6dofData) (s : os.State) → is_negative (os.imu_chan_pub m s).0 ≡ false
  pub takes_baro : (m : BaroData) (s : os.State) → is_negative (os.baro_chan_pub m s).0 ≡ false

grown : {A : Type 0} (xs ys : List A) (x : A) → ys ≡ xs ++ x ∷ [] → length ys ≡ length xs + 1
grown xs ys x e = ap length e ∙ length-append xs (x ∷ [])

unfoldable pub OneMore : {A : Type 0} → List A → List A → Type 0
OneMore xs ys = (length xs ≤ length ys) × (length ys ≤ length xs + 1)

same-OneMore : {A : Type 0} {xs ys : List A} → ys ≡ xs → OneMore xs ys
unfolding OneMore
same-OneMore e = let l = ap length e in (omega (arith, l), omega (arith, l))

grown-OneMore : {A : Type 0} (xs ys : List A) (x : A) → ys ≡ xs ++ x ∷ [] → OneMore xs ys
unfolding OneMore
grown-OneMore xs ys x e = let l = grown xs ys x e in (omega (arith, l), omega (arith, l))

module _ {os : Drivers} (bus : IsBus os) (dev : os.Device) where
  pub process_baro-imu : (s : os.State) → bus.imu (process_baro os dev s).1 ≡ bus.imu s
  process_baro-imu s =
      let q1 = (bus.fetch_quiet dev s).0 in
      let q2 = (bus.get_quiet dev ambient_temp (Stamps.s1 os dev s)).0 ∙ q1 in
      let q3 = (bus.get_quiet dev press (Stamps.s2 os dev s)).0 ∙ q2 in
      elim (Bool-cases (is_negative (os.sensor_sample_fetch dev s).0)) [
        | inl bad ↦ rw (Stamps.no_fetch os dev s bad) q1
        | inr h ↦
            elim (Bool-cases
              (is_negative (os.sensor_channel_get dev ambient_temp (Stamps.s1 os dev s)).0)) [
                | inl bad ↦ rw (Stamps.no_temperature os dev s h bad) q2
                | inr g ↦
                    elim (Bool-cases
                      (is_negative (os.sensor_channel_get dev press (Stamps.s2 os dev s)).0)) [
                        | inl bad ↦ rw (Stamps.no_pressure os dev s h g bad) q3
                        | inr k ↦ rw (Stamps.sampled os dev s h g k) (bus.baro_elsewhere _ _ ∙ q3)
                      ]
              ]
      ]

  pub process_imu-baro : (s : os.State) → bus.baro (process_imu os dev s).1 ≡ bus.baro s
  process_imu-baro s =
      let q1 = (bus.fetch_quiet dev s).1 in
      let q2 = (bus.get_quiet dev accel_xyz (Imu.s1 os dev s)).1 ∙ q1 in
      let q3 = (bus.get_quiet dev gyro_xyz (Imu.s2 os dev s)).1 ∙ q2 in
      let q4 = (bus.get_quiet dev die_temp (Imu.s3 os dev s)).1 ∙ q3 in
      elim (Bool-cases (is_negative (os.sensor_sample_fetch dev s).0)) [
        | inl bad ↦ rw (Imu.no_fetch os dev s bad) q1
        | inr h ↦
            elim (Bool-cases
              (is_negative (os.sensor_channel_get dev accel_xyz (Imu.s1 os dev s)).0)) [
                | inl bad ↦ rw (Imu.no_accel os dev s h bad) q2
                | inr g ↦
                    elim (Bool-cases
                      (is_negative (os.sensor_channel_get dev gyro_xyz (Imu.s2 os dev s)).0)) [
                        | inl bad ↦ rw (Imu.no_gyro os dev s h g bad) q3
                        | inr k ↦ rw (Imu.sampled os dev s h g k) (bus.imu_elsewhere _ _ ∙ q4)
                      ]
              ]
      ]

  baro-OneMore :
      (s : os.State) (out : Result ℤ Unit × os.State)
      → BaroDone bus dev s out
      → OneMore (bus.baro s) (bus.baro out.1)
  baro-OneMore s out (failed code fault r e) = same-OneMore e
  baro-OneMore s out (lost m before sound n r e) = same-OneMore e
  baro-OneMore s out (published m sound made r t e) = grown-OneMore _ _ m e

  imu-OneMore :
      (s : os.State) (out : Result ℤ Unit × os.State)
      → ImuDone bus dev s out
      → OneMore (bus.imu s) (bus.imu out.1)
  imu-OneMore s out (failed code fault r e) = same-OneMore e
  imu-OneMore s out (lost m before sound n r e) = same-OneMore e
  imu-OneMore s out (published m sound made r t e) = grown-OneMore _ _ m e

  -- At most one message more.
  pub process_baro-OneMore :
      (s : os.State) → OneMore (bus.baro s) (bus.baro (process_baro os dev s).1)
  process_baro-OneMore s = baro-OneMore s _ (process_baro_lem bus dev s)

  pub process_imu-OneMore : (s : os.State) → OneMore (bus.imu s) (bus.imu (process_imu os dev s).1)
  process_imu-OneMore s = imu-OneMore s _ (process_imu_lem bus dev s)

  pub process_baro-works :
      (s : os.State)
      → Works os
      → length (bus.baro (process_baro os dev s).1) ≡ length (bus.baro s) + 1
  process_baro-works s works =
      let quiet =
        (bus.get_quiet dev press (Stamps.s2 os dev s)).1
        ∙ (bus.get_quiet dev ambient_temp (Stamps.s1 os dev s)).1
        ∙ (bus.fetch_quiet dev s).1 in
      rw (Stamps.sampled os dev s (works.fetches _ _) (works.gets _ _ _) (works.gets _ _ _))
        (grown _ _ _ (bus.baro_taken _ _ (works.takes_baro _ _)) ∙ ap (λ l. length l + 1) quiet)

  pub process_imu-works :
      (s : os.State) → Works os → length (bus.imu (process_imu os dev s).1) ≡ length (bus.imu s) + 1
  process_imu-works s works =
      let quiet =
        (bus.get_quiet dev die_temp (Imu.s3 os dev s)).0
        ∙ (bus.get_quiet dev gyro_xyz (Imu.s2 os dev s)).0
        ∙ (bus.get_quiet dev accel_xyz (Imu.s1 os dev s)).0
        ∙ (bus.fetch_quiet dev s).0 in
      rw (Imu.sampled os dev s (works.fetches _ _) (works.gets _ _ _) (works.gets _ _ _))
        (grown _ _ _ (bus.imu_taken _ _ (works.takes_imu _ _)) ∙ ap (λ l. length l + 1) quiet)
