-- ===== src/App/Flight/Clock.antt =====
-- Time while the firmware runs.
use efc.Common.{
  ℕ, ◌≤◌, ◌≡◌, refl, List, [], ◌∷◌, Option, some, none, Bool, true, false, Bool-cases, if-both, inl,
  inr, is_negative, ℤ, arith,
}
use efc.Common.Exec.{pure}
use efc.App.Logger.{Imu6dofData, BaroData}
use efc.App.Sensors.{Channel, process_imu, process_baro}
use efc.App.Sensors.Imu
use efc.App.Sensors.Stamps
use efc.App.Sensors.Stamps.{clock}
use efc.App.Sensors.Keeps.{process_imu-keeps, process_baro-keeps}
use efc.App.Bus.{
  Chan, imu_chan, baro_chan, sync_chan, heartbeat_chan, Sub, Zbus, read, sync_notify,
  heartbeat_notify,
}
use efc.App.Startup.{Board, attempt, sample, sleep, handle_icm42688p_drdy}
use efc.App.Flight.{
  Point, at_toggle, at_imu, at_baro, at_sleep, Turn, main_loop, data_ready, sync_timer,
  heartbeat_timer, wake, Flight, piece, after_piece, advance, after_wait, resume, listen, step, run,
}

-- The uptime does not go back, whatever is called.
pub record IsClock (b : Board) (z : Zbus b.drivers) : Type 0 where
  pub fetched :
      (dev : b.drivers.Device) (s : b.drivers.State)
      → b.drivers.k_uptime_get s ≤ b.drivers.k_uptime_get (b.drivers.sensor_sample_fetch dev s).1
  pub got :
      (dev : b.drivers.Device) (c : Channel) (s : b.drivers.State)
      → b.drivers.k_uptime_get s ≤ b.drivers.k_uptime_get (b.drivers.sensor_channel_get dev c s).2
  pub imu_published :
      (m : Imu6dofData) (s : b.drivers.State)
      → b.drivers.k_uptime_get s ≤ b.drivers.k_uptime_get (b.drivers.imu_chan_pub m s).1
  pub baro_published :
      (m : BaroData) (s : b.drivers.State)
      → b.drivers.k_uptime_get s ≤ b.drivers.k_uptime_get (b.drivers.baro_chan_pub m s).1
  pub toggled :
      (s : b.drivers.State)
      → b.drivers.k_uptime_get s ≤ b.drivers.k_uptime_get (b.gpio_pin_toggle_dt s).1
  pub slept :
      (ms : ℕ) (s : b.drivers.State)
      → b.drivers.k_uptime_get s ≤ b.drivers.k_uptime_get (b.k_msleep ms s)
  pub notified :
      (c : Chan) (s : b.drivers.State)
      → b.drivers.k_uptime_get s ≤ b.drivers.k_uptime_get (z.zbus_chan_notify c s).1
  pub waited :
      (sub : Sub) (s s' : b.drivers.State) (ret : ℤ) (c : Chan)
      → z.zbus_sub_wait sub s ≡ some (ret, c, s')
      → b.drivers.k_uptime_get s ≤ b.drivers.k_uptime_get s'
  pub imu_read :
      (s : b.drivers.State)
      → b.drivers.k_uptime_get s ≤ b.drivers.k_uptime_get (z.imu_chan_read s).2
  pub baro_read :
      (s : b.drivers.State)
      → b.drivers.k_uptime_get s ≤ b.drivers.k_uptime_get (z.baro_chan_read s).2

module _ {b : Board} {z : Zbus b.drivers} (time : IsClock b z) where
  abbrev now : b.drivers.State → ℕ
  now s = b.drivers.k_uptime_get s

  abbrev pub uptime : Flight b z → ℕ
  uptime w = now w.firmware.io

  -- Later than the reading of the clock that stamps the sample.
  pub process_imu-clock :
      (dev : b.drivers.Device) (s : b.drivers.State)
      → clock b.drivers dev s ≤ now (process_imu b.drivers dev s).1
  process_imu-clock dev s =
      elim (process_imu-keeps b.drivers dev (λ t. clock b.drivers dev s ≤ now t)
        (λ c t h. let g = time.got dev c t in omega (arith, g)) s (omega arith)) [
          | inl done ↦ done
          | inr (before, e, h) ↦ rw e (
              let g = time.imu_published (Imu.imu_message b.drivers dev s) before in
              omega (arith, g))
        ]

  process_baro-later :
      (dev : b.drivers.Device) (s : b.drivers.State) → now s ≤ now (process_baro b.drivers dev s).1
  process_baro-later dev s =
      elim (process_baro-keeps b.drivers dev (λ t. now s ≤ now t)
        (λ c t h. let g = time.got dev c t in omega (arith, g)) s (time.fetched dev s)) [
          | inl done ↦ done
          | inr (before, e, h) ↦ rw e (
              let g = time.baro_published (Stamps.baro_message b.drivers dev s) before in
              omega (arith, g))
        ]

  process_imu-later :
      (dev : b.drivers.Device) (s : b.drivers.State) → now s ≤ now (process_imu b.drivers dev s).1
  process_imu-later dev s =
      let first = time.fetched dev s in
      let rest = process_imu-clock dev s in omega (arith, first, rest)

  piece-later :
      (dev : b.drivers.Device) (t : Bool) (w : Flight b z) (p : Point)
      → uptime w ≤ uptime (after_piece b z (piece b z p dev t w.firmware) w)
  unfolding piece attempt sample sleep pure
  piece-later dev t w at_toggle =
      let later = time.toggled w.firmware.io in
      elim (Bool-cases (is_negative (b.gpio_pin_toggle_dt w.firmware.io).0)) [
        | inl bad ↦ rw bad later
        | inr fine ↦ rw fine later
      ]
  piece-later dev true w at_imu = omega arith
  piece-later dev false w at_imu = process_imu-later dev w.firmware.io
  piece-later dev t w at_baro = process_baro-later b.bosch_bme280 w.firmware.io
  piece-later dev t w at_sleep = time.slept 1000 w.firmware.io

  read-later : (c : Chan) (s : b.drivers.State) → now s ≤ now (read z c s).1
  unfolding read
  read-later imu_chan s = time.imu_read s
  read-later baro_chan s = time.baro_read s
  read-later sync_chan s = omega arith
  read-later heartbeat_chan s = omega arith

  wait-later :
      (sub : Sub) (w : Flight b z)
      → uptime w ≤ uptime (after_wait b z sub (z.zbus_sub_wait sub w.firmware.io) w)
  wait-later sub w = go (z.zbus_sub_wait sub w.firmware.io) refl
    where
      go :
          (r : Option (ℤ × Chan × b.drivers.State))
          → z.zbus_sub_wait sub w.firmware.io ≡ r
          → uptime w ≤ uptime (after_wait b z sub r w)
      go none e = omega arith
      go (some (ret, c, s')) e =
          let later = time.waited sub w.firmware.io s' ret c e in
          if-both (λ w'. uptime w ≤ uptime w') (is_negative ret) _ _ later later

  resume-later :
      (sub : Sub) (r : Option Chan) (w : Flight b z) → uptime w ≤ uptime (resume b z sub r w)
  resume-later sub none w = wait-later sub w
  resume-later sub (some c) w = read-later c w.firmware.io

  listen-later : (sub : Sub) (w : Flight b z) → uptime w ≤ uptime (listen b z sub w)
  unfolding listen
  listen-later sub w =
      if-both (λ w'. uptime w ≤ uptime w') (w.listening sub) _ _
        (resume-later sub (w.reading sub) w) (omega arith)

  pub step-later :
      (dev : b.drivers.Device) (using_trigger : Bool) (t : Turn) (w : Flight b z)
      → uptime w ≤ uptime (step b z dev using_trigger t w)
  unfolding step advance handle_icm42688p_drdy sample sync_notify heartbeat_notify
  step-later dev u main_loop w =
      if-both (λ w'. uptime w ≤ uptime w') w.looping _ _ (piece-later dev u w w.point) (omega arith)
  step-later dev u data_ready w = process_imu-later dev w.firmware.io
  step-later dev u sync_timer w = time.notified sync_chan w.firmware.io
  step-later dev u heartbeat_timer w = time.notified heartbeat_chan w.firmware.io
  step-later dev u (wake sub) w = listen-later sub w

  pub run-later :
      (dev : b.drivers.Device) (using_trigger : Bool) (ts : List Turn) (w : Flight b z)
      → uptime w ≤ uptime (run b z dev using_trigger ts w)
  unfolding run
  run-later dev u [] w = omega arith
  run-later dev u (t ∷ ts) w =
      let first = step-later dev u t w in
      let rest = run-later dev u ts (step b z dev u t w) in omega (arith, first, rest)
