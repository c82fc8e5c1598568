-- ===== src/App/Bus.antt =====
-- How samples reach the threads: the channels and their observers in app/src/main.c, the head of the
-- loops of app/src/logger.c and app/src/telemetry_packer.c, which wait and read, and the timers that
-- notify them. zbus is a parameter.
pub mod Laws
use efc.Common.{Option, ℤ}
use efc.App.Logger.{Imu6dofData, BaroData}
use efc.App.Logger
use efc.App.Telemetry
use efc.App.Sensors.{Drivers}

pub data Chan : Type 0 where
  imu_chan baro_chan sync_chan heartbeat_chan : Chan

pub data Sub : Type 0 where
  logger_sub telemetry_packer_sub : Sub

pub record Zbus (os : Drivers) : Type 0 where
  -- the result and the channel; `none` while nothing has come
  pub zbus_sub_wait : Sub → os.State → Option (ℤ × Chan × os.State)
  -- the result, and what is in `msg` after the call
  pub imu_chan_read : os.State → ℤ × Imu6dofData × os.State
  pub baro_chan_read : os.State → ℤ × BaroData × os.State
  pub zbus_chan_notify : Chan → os.State → ℤ × os.State

-- What a thread has after its wait: the message of a sample, another channel, or a failed wait.
pub data Notice : Type 0 where
  imu : Imu6dofData → Notice
  baro : BaroData → Notice
  told : Chan → Notice
  failed : Notice

-- The branch that a loop takes: `logger` compares with sync_chan, `telemetry_packer` with
-- heartbeat_chan.
abbrev pub logger_event : Notice → Logger.Event
logger_event (imu msg) = Logger.imu_chan msg
logger_event (baro msg) = Logger.baro_chan msg
logger_event (told sync_chan) = Logger.sync_chan
logger_event (told c) = Logger.other_chan
logger_event failed = Logger.wait_failed

abbrev pub packer_event : Notice → Telemetry.Event
packer_event (imu msg) = Telemetry.imu_chan msg
packer_event (baro msg) = Telemetry.baro_chan msg
packer_event (told heartbeat_chan) = Telemetry.heartbeat_chan
packer_event (told c) = Telemetry.other_chan
packer_event failed = Telemetry.wait_failed

module _ {os : Drivers} (z : Zbus os) where
  open os use {State}

  -- The read of the channel that has something new, whose failure is only reported.
  unfoldable pub read : Chan → State → Notice × State
  read imu_chan s = let (ret, msg, s') = z.imu_chan_read s in (imu msg, s')
  read baro_chan s = let (ret, msg, s') = z.baro_chan_read s in (baro msg, s')
  read c s = (told c, s)

  -- `sync_notify` and `heartbeat_notify`, which only report a failure.
  unfoldable pub sync_notify : State → State
  sync_notify s = (z.zbus_chan_notify sync_chan s).1

  unfoldable pub heartbeat_notify : State → State
  heartbeat_notify s = (z.zbus_chan_notify heartbeat_chan s).1
