-- ===== src/App/Flight.antt =====
-- The firmware while it runs: the loop of app/src/main.c, the interrupt of the IMU, the timers, and
-- the waits of the logger and the telemetry packer, in any order. The threads share the channels; main
-- is taken apart into the pieces of a round, between which others may run.
pub mod Acts
pub mod Steps
pub mod Caught
pub mod Heard
pub mod Woken
pub mod Prompt
pub mod Lag
pub mod Clock
pub mod Ascending
pub mod Recorder
pub mod Downlink
pub mod Rig
pub mod Examples
mod Late
mod Linked
mod Prompted
use efc.Common.{
  List, [], ◌∷◌, ◌++◌, Option, none, some, Bool, true, false, if◌then◌else◌, is_negative, ℤ,
}
use efc.Common.Exec.{Result, ok, err, pure}
use efc.App.Bus.{
  Sub, logger_sub, telemetry_packer_sub, Zbus, Notice, imu, baro, told, failed, Chan, read,
  sync_notify, heartbeat_notify,
}
use efc.App.Sensors.{process_imu, process_baro}
use efc.App.Startup.{
  Board, Firmware, Main, Stop, attempt, sample, sleep, led_not_toggled, handle_icm42688p_drdy,
}

-- The statement of a round that comes next.
pub data Point : Type 0 where
  at_toggle at_imu at_baro at_sleep : Point

abbrev pub next : Point → Point
next at_toggle = at_imu
next at_imu = at_baro
next at_baro = at_sleep
next at_sleep = at_toggle

pub data Turn : Type 0 where
  main_loop data_ready sync_timer heartbeat_timer : Turn
  -- a thread looks whether its wait is over, or reads
  wake : Sub → Turn

-- What a thread has for each subscriber, with one changed.
abbrev pub change {ℓ} : {A : Type ℓ} → Sub → A → (Sub → A) → Sub → A
change logger_sub v f logger_sub = v
change logger_sub v f telemetry_packer_sub = f telemetry_packer_sub
change telemetry_packer_sub v f logger_sub = f logger_sub
change telemetry_packer_sub v f telemetry_packer_sub = v

abbrev pub is_ok : {A : Type 0} → Result Stop A → Bool
is_ok (ok a) = true
is_ok (err e) = false

-- A thread returns after a failed wait.
abbrev pub goes_on : Notice → Bool
goes_on failed = false
goes_on _ = true

module _ (b : Board) (z : Zbus b.drivers) where
  open b use {drivers}

  -- Whether the loops of main and of the two threads still run, the channel that each thread is about
  -- to read since its wait returned it, and what each thread has had.
  pub record Flight : Type 0 where
    pub firmware : Firmware b
    pub point : Point
    pub looping : Bool
    pub listening : Sub → Bool
    pub reading : Sub → Option Chan
    pub heard : Sub → List Notice

  -- One statement of the loop's body.
  unfoldable pub piece : Point → drivers.Device → Bool → Main b Unit
  unfolding attempt sample sleep pure
  piece at_toggle main_imu using_trigger =
      attempt b is_negative b.gpio_pin_toggle_dt led_not_toggled
  piece at_imu main_imu using_trigger =
      if using_trigger then pure tt else sample b (process_imu drivers main_imu)
  piece at_baro main_imu using_trigger = sample b (process_baro drivers b.bosch_bme280)
  piece at_sleep main_imu using_trigger = sleep b 1000

  abbrev pub after_piece : Result Stop Unit × Firmware b → Flight → Flight
  after_piece (ok u, fw) w = record w { firmware = fw; point = next w.point }
  after_piece (err e, fw) w = record w { firmware = fw; looping = false }

  -- main goes on by one statement, unless it has returned.
  unfoldable pub advance : drivers.Device → Bool → Flight → Flight
  advance main_imu using_trigger w =
      if w.looping then after_piece (piece w.point main_imu using_trigger w.firmware) w else w

  abbrev pub with_io : drivers.State → Flight → Flight
  with_io io w = record w { firmware = record w.firmware { io = io } }

  abbrev pub has_had : Sub → Notice × drivers.State → Flight → Flight
  has_had sub (n, io) w = record w {
    firmware = record w.firmware { io = io };
    listening = change sub (goes_on n) w.listening;
    reading = change sub none w.reading;
    heard = change sub (w.heard sub ++ n ∷ []) w.heard;
  }

  abbrev pub after_wait : Sub → Option (ℤ × Chan × drivers.State) → Flight → Flight
  after_wait sub none w = w
  after_wait sub (some (ret, chan, io)) w =
      if is_negative ret then has_had sub (failed, io) w else record w {
        firmware = record w.firmware { io = io };
        reading = change sub (some chan) w.reading;
      }

  -- The wait, or after it the read of the channel; others may run between the two.
  abbrev pub resume : Sub → Option Chan → Flight → Flight
  resume sub none w = after_wait sub (z.zbus_sub_wait sub w.firmware.io) w
  resume sub (some chan) w = has_had sub (read z chan w.firmware.io) w

  -- The head of a thread's loop, one call at a time; the body after it shares nothing with main.
  unfoldable pub listen : Sub → Flight → Flight
  listen sub w = if w.listening sub then resume sub (w.reading sub) w else w

  unfoldable pub step : drivers.Device → Bool → Turn → Flight → Flight
  unfolding advance listen sync_notify heartbeat_notify handle_icm42688p_drdy
  step main_imu using_trigger main_loop w = advance main_imu using_trigger w
  step main_imu using_trigger data_ready w = record w {
    firmware = (handle_icm42688p_drdy b main_imu w.firmware).1;
  }
  step main_imu using_trigger sync_timer w = with_io (sync_notify z w.firmware.io) w
  step main_imu using_trigger heartbeat_timer w = with_io (heartbeat_notify z w.firmware.io) w
  step main_imu using_trigger (wake sub) w = listen sub w

  unfoldable pub run : drivers.Device → Bool → List Turn → Flight → Flight
  unfolding step
  run main_imu using_trigger [] w = w
  run main_imu using_trigger (t ∷ ts) w =
      run main_imu using_trigger ts (step main_imu using_trigger t w)
