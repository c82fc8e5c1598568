-- ===== src/App/Flight/Examples.antt =====
-- A flight of one round of main, whose samples reach the log before the timer of the logger fires.
use efc.Common.{ℕ, zero, suc, ◌≡◌, refl, List, [], ◌∷◌, ◌++◌, none, true, false, arith, map, codes}
use efc.Common.Exec.{Result, ok, pure, ◌>>=◌, or_return}
use efc.Ulog.Types.{ErrorType, phase_none}
use efc.Ulog.Write.{try_write, uptime_us, write_header, write_flag_bits, write_sync}
use efc.Ulog.Api
use efc.Ulog.Generated
use efc.Ulog.Platform.{content}
use efc.Ulog.Memory.{memory, memory_disk, memory_full}
use efc.Ulog.Session
use efc.App.Logger
use efc.App.Logger.{
  Imu6dofData, BaroData, FloatUnit, mpu6050, do_calls, subscribe_to, loop, logger_started, logger,
}
use efc.App.Logger.Log.{NoFault}
use efc.App.Sensors.{
  process_imu, process_baro, fetch, get, get_anyway, uptime, publish_imu, publish_baro,
}
use efc.App.Bus.{
  Sub, logger_sub, telemetry_packer_sub, imu, baro, told, sync_chan, baro_chan, heartbeat_chan,
  read, imu_chan, sync_notify, heartbeat_notify, logger_event,
}
use efc.App.Startup.{attempt, sample, sleep, handle_icm42688p_drdy}
use efc.App.Flight.{
  Turn, data_ready, main_loop, sync_timer, heartbeat_timer, wake, Flight, at_toggle, piece, advance,
  listen, step, run,
}
use efc.App.Flight.Acts.{unread}
use efc.App.Flight.Heard.{KeepsUp, every_sample_heard}
use efc.App.Flight.Caught.{imus, baros}
use efc.App.Flight.Recorder.{IsRecorded, every_sample-IsRecorded}
use efc.App.Flight.Rig.{board, zbus, bus, still, in_time, blank}

abbrev pub start : Flight board zbus
start = record {
  firmware = record {
    boot_count = 0;
    nvs = record { flash_device = none; offset = 0; sector_size = 0; sector_count = 0 };
    threads = [];
    io = blank;
  };
  point = at_toggle;
  looping = true;
  listening = λ sub. true;
  reading = λ sub. none;
  heard = λ sub. [];
}

abbrev turns : List Turn
turns =
    main_loop
    ∷ main_loop
    ∷ wake logger_sub
    ∷ main_loop
    ∷ wake logger_sub
    ∷ sync_timer
    ∷ heartbeat_timer
    ∷ wake logger_sub
    ∷ wake logger_sub
    ∷ wake telemetry_packer_sub
    ∷ wake logger_sub
    ∷ wake logger_sub
    ∷ main_loop
    ∷ []

abbrev pub imu_sample : Imu6dofData
imu_sample = record {
  timestamp_us = 0;
  temperature_degc = 1;
  accel_x = 1;
  accel_y = 2;
  accel_z = 3;
  gyro_x = 1;
  gyro_y = 2;
  gyro_z = 3;
}

abbrev pub baro_sample : BaroData
baro_sample = record { timestamp_us = 1000; temperature_degc = 1; pressure_kpa = 1 }

abbrev landed : Flight board zbus
landed = run board zbus 7 false turns start

-- What a flight computes with.
unfoldable pub firmware : Unit {0}
unfolding run step advance listen piece attempt sample sleep pure handle_icm42688p_drdy process_imu
    process_baro fetch get get_anyway uptime publish_imu publish_baro ◌>>=◌ read sync_notify
    heartbeat_notify
firmware = tt

heard_in_flight : landed.heard logger_sub ≡ imu imu_sample ∷ baro baro_sample ∷ told sync_chan ∷ []
unfolding firmware
heard_in_flight = refl

pub for_all_subs : (P : Sub → Type 0) → P logger_sub → P telemetry_packer_sub → (sub : Sub) → P sub
for_all_subs P a b logger_sub = a
for_all_subs P a b telemetry_packer_sub = b

keeps_up : KeepsUp bus logger_sub 7 false turns start
unfolding firmware
keeps_up = (
  λ runs. tt,
  (
    λ runs. (for_all_subs _ (omega arith) (omega arith), refl),
    (
      tt,
      (
        λ runs. (for_all_subs _ (omega arith) (omega arith), refl),
        (tt, (tt, (tt, (tt, (tt, (tt, (tt, (tt, (λ runs. tt, tt))))))))),
      ),
    ),
  ),
)

all_read : unread bus logger_sub landed ≡ []
unfolding firmware
all_read = refl

-- With the trigger the loop asks nothing where it would sample the IMU, though a sample of the
-- interrupt waits.
trigger-KeepsUp :
    KeepsUp bus logger_sub 7 true
      (data_ready ∷ main_loop ∷ main_loop ∷ wake logger_sub ∷ wake logger_sub ∷ [])
      start
unfolding firmware
trigger-KeepsUp = (
  (for_all_subs _ (omega arith) (omega arith), refl),
  ((λ runs. tt), ((λ runs. tt), (tt, (tt, tt)))),
)

-- The packer is behind.
packer_waits : unread bus telemetry_packer_sub landed ≡ imu_chan ∷ baro_chan ∷ heartbeat_chan ∷ []
unfolding firmware
packer_waits = refl

every_sample_heard_example :
    ((bus.look logger_sub landed.firmware.io).imus ≡ [] ++ imus (landed.heard logger_sub))
    × ((bus.look logger_sub landed.firmware.io).baros ≡ [] ++ baros (landed.heard logger_sub))
every_sample_heard_example =
    every_sample_heard bus logger_sub 7 false still in_time turns start refl refl keeps_up all_read

-- Any arithmetic does for a run.
abbrev fpu : FloatUnit
fpu = record { sub = λ a b. a; mul = λ a b. b; div = λ a b. a; powf = λ a b. a }

abbrev card : Logger.Logger memory
card = record {
  ulog_log = record {
    phase = phase_none;
    file = record { bytes = []; behind = []; room = 4000; clock = 2000 };
    next_msg_id = 9;
  };
  msg_ids = record { gyro_msg_id = 0; accel_msg_id = 0; baro_msg_id = 0; baro_alt_msg_id = 0 };
  enabled = false;
}

abbrev name : List ℕ
name = codes "/SD:/log_0.ulg"

abbrev oks : ℕ → List (Result ErrorType Unit)
oks zero = []
oks (suc n) = ok tt ∷ oks n

oks-NoFault : (n : ℕ) → NoFault (oks n)
oks-NoFault zero = tt
oks-NoFault (suc n) = ((λ e. cc), oks-NoFault n)

logger_results :
    (logger memory fpu mpu6050 name
      (map logger_event (imu imu_sample ∷ baro baro_sample ∷ told sync_chan ∷ []))
      card).0
    ≡ oks 18
unfolding logger logger_started do_calls subscribe_to loop Session.run Session.perform Api.init
    Api.add_info Api.add_parameter Api.start_data_phase Api.sync Api.save Api.require_phase
    Generated.register_format Generated.subscribe Generated.write Generated.save_fields write_header
    write_flag_bits write_sync try_write or_return ◌>>=◌ uptime_us
logger_results = refl

abbrev logged_flight : Logger.Logging memory
logged_flight = logger memory fpu mpu6050 name (map logger_event (landed.heard logger_sub)) card

no_fault : NoFault logged_flight.0
no_fault = rw (heard_in_flight, logger_results) (oks-NoFault 18)

every_sample-IsRecorded_example :
    (is : List Imu6dofData) × (bs : List BaroData) × ((bus.look logger_sub landed.firmware.io).imus
      ≡ [] ++ is)
    × ((bus.look logger_sub landed.firmware.io).baros ≡ [] ++ bs)
    × IsRecorded fpu (content memory_disk logged_flight.1.ulog_log.file) is bs
every_sample-IsRecorded_example =
    every_sample-IsRecorded bus still in_time memory_disk memory_full 7 false turns start fpu
      mpu6050 name card refl refl keeps_up all_read no_fault refl
