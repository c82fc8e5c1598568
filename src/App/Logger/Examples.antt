-- ===== src/App/Logger/Examples.antt =====
-- A run of the logger thread on a card in memory, and its theorem at that run.
use efc.Common.{drop, length, ℕ, zero, suc, ◌≡◌, refl, List, [], ◌∷◌, ◌++◌, codes, false}
use efc.Common.Exec.{Result, ok, ◌>>=◌, or_return}
use efc.Ulog.Types.{ErrorType, phase_none, phase_data}
use efc.Ulog.Write.{try_write, uptime_us, write_header, write_flag_bits, write_sync}
use efc.Ulog.Api
use efc.Ulog.Api.Lifecycle.{no_flags}
use efc.Ulog.Generated
use efc.Ulog.Memory.{memory, memory_disk, memory_full}
use efc.Ulog.Session.{perform, run, Shows}
use efc.App.Logger
use efc.App.Logger.{
  FloatUnit, mpu6050, icm42688p, Event, imu_chan, baro_chan, sync_chan, other_chan, wait_failed,
  do_calls, subscribe_to, loop, logger_started, logger,
}
use efc.App.Logger.Log.{NoFault, AllOk, definition_messages, stream_messages, loop_messages}
use efc.App.Logger.Keeps.{logger_lem}

-- Any arithmetic does for a run.
abbrev fpu : FloatUnit
fpu = record { sub = λ a b. a; mul = λ a b. b; div = λ a b. a; powf = λ a b. a }

abbrev boot : Logger.Logger memory
boot = record {
  ulog_log = record {
    phase = phase_none;
    file = record { bytes = []; behind = []; room = 4000; clock = 2000 };
    next_msg_id = 9;
  };
  msg_ids = record { gyro_msg_id = 0; accel_msg_id = 0; baro_msg_id = 0; baro_alt_msg_id = 0 };
  enabled = false;
}

abbrev events : List Event
events =
    imu_chan (record {
      timestamp_us = 2003000;
      temperature_degc = 7;
      accel_x = 1;
      accel_y = 2;
      accel_z = 3;
      gyro_x = 4;
      gyro_y = 5;
      gyro_z = 6;
    })
    ∷ other_chan
    ∷ baro_chan (record { timestamp_us = 2004000; temperature_degc = 7; pressure_kpa = 8 })
    ∷ sync_chan
    ∷ wait_failed
    ∷ sync_chan
    ∷ []

abbrev name : List ℕ
name = codes "/SD:/log_0.ulg"

abbrev oks : ℕ → List (Result ErrorType Unit)
oks zero = []
oks (suc n) = ok tt ∷ oks n

oks-NoFault : (n : ℕ) → NoFault (oks n)
oks-NoFault zero = tt
oks-NoFault (suc n) = ((λ e. cc), oks-NoFault n)

logger_results : (logger memory fpu icm42688p name events boot).0 ≡ oks 18
unfolding logger logger_started do_calls subscribe_to loop run perform Api.init Api.add_info
    Api.add_parameter Api.start_data_phase Api.sync Api.save Api.require_phase
    Generated.register_format Generated.subscribe Generated.write Generated.save_fields write_header
    write_flag_bits write_sync try_write or_return ◌>>=◌ uptime_us
logger_results = refl

logger_lem_example :
    AllOk (logger memory fpu icm42688p name events boot).0
    × Shows memory_disk (logger memory fpu icm42688p name events boot).1.ulog_log (record {
      phase = phase_data;
      next_msg_id = 4;
      messages =
          no_flags ∷ definition_messages icm42688p ++ stream_messages ++ loop_messages fpu events;
    })
    × (memory_disk.behind (logger memory fpu icm42688p name events boot).1.ulog_log.file
        ≡ drop
            (length
              (memory_disk.written (logger memory fpu icm42688p name events boot).1.ulog_log.file))
            [])
logger_lem_example =
    logger_lem memory_disk memory_full fpu icm42688p name events boot
      (rw logger_results (oks-NoFault 18))
