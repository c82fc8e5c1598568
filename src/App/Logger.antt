-- ===== src/App/Logger.antt =====
-- The logger thread of app/src/logger.c: the setup of the log and the loop over zbus events. Its
-- calls of the log writer are a list, since no result of one changes what the thread does next; the
-- results come back in their order. The setup of a failed ULOG_Init has no further calls.
pub mod Log
pub mod Steps
pub mod Over
pub mod Keeps
mod Examples
use efc.Common.{
  ℕ, ◌+◌, List, [], ◌∷◌, ◌++◌, Option, some, Bool, true, false, codes, le_bytes, length,
}
use efc.Common.Exec.{Result, ok, err}
use efc.Ulog.Platform.{Platform}
use efc.Ulog.Types.{ErrorType, Inst, log}
use efc.Ulog.Api
use efc.Ulog.Generated
use efc.Ulog.Generated.{Definition, Field, add_timestamp_field}
use efc.Ulog.Session.{
  Call, add_info, add_parameter, start_data_phase, sync, register_format, write, run,
}

-- Single precision arithmetic on bit patterns: the operators of the compiler and `powf`.
pub record FloatUnit : Type 0 where
  pub sub : ℕ → ℕ → ℕ
  pub mul : ℕ → ℕ → ℕ
  pub div : ℕ → ℕ → ℕ
  pub powf : ℕ → ℕ → ℕ

-- `struct imu_6dof_data` and `struct baro_data`; a float is its bit pattern.
pub record Imu6dofData : Type 0 where
  pub timestamp_us : ℕ
  pub temperature_degc : ℕ
  pub accel_x : ℕ
  pub accel_y : ℕ
  pub accel_z : ℕ
  pub gyro_x : ℕ
  pub gyro_y : ℕ
  pub gyro_z : ℕ

pub record BaroData : Type 0 where
  pub timestamp_us : ℕ
  pub temperature_degc : ℕ
  pub pressure_kpa : ℕ

abbrev floats : List (List ℕ) → List Field
floats [] = []
floats (n ∷ ns) = record { name = n; type = Generated.float } ∷ floats ns

-- The definitions in messages/ulog.
abbrev pub gyro : Definition
gyro =
    add_timestamp_field
      (record { name = codes "gyro"; fields = floats (codes "x" ∷ codes "y" ∷ codes "z" ∷ []) })

abbrev pub accel : Definition
accel =
    add_timestamp_field
      (record { name = codes "accel"; fields = floats (codes "x" ∷ codes "y" ∷ codes "z" ∷ []) })

abbrev pub baro : Definition
baro =
    add_timestamp_field (record {
      name = codes "baro";
      fields = floats (codes "temperature" ∷ codes "pressure" ∷ []);
    })

abbrev pub altitude : Definition
altitude = add_timestamp_field (record {
  name = codes "altitude";
  fields =
      record { name = codes "source"; type = Generated.uint8_t }
      ∷ floats (codes "altitude" ∷ codes "variance" ∷ []);
})

-- `APP_PRIMARY_IMU`
pub data PrimaryImu : Type 0 where
  mpu6050 icm42688p : PrimaryImu

abbrev pub main_imu_name_key : PrimaryImu → List ℕ
main_imu_name_key mpu6050 = codes "char[7] main_imu_name"
main_imu_name_key icm42688p = codes "char[9] main_imu_name"

abbrev pub main_imu_name : PrimaryImu → List ℕ
main_imu_name mpu6050 = codes "MPU6050"
main_imu_name icm42688p = codes "ICM42688P"

-- `ALTITUDE_SOURCE_TYPE_BARO` and `BMP280_ALTITUDE_VARIANCE_M`, which is .017f
abbrev pub altitude_source_type_baro : ℕ
altitude_source_type_baro = 1

abbrev pub bmp280_altitude_variance_m : ℕ
bmp280_altitude_variance_m = 0x3c8b4396

abbrev add_info_of : List ℕ → List ℕ → Call
add_info_of key val = add_info log (some key) (length key) (some val) (length val)

-- The calls from ULOG_Gyro_RegisterFormat to the last ULOG_AddInfo.
abbrev pub definition_calls : PrimaryImu → List Call
definition_calls imu =
    register_format gyro log
    ∷ register_format accel log
    ∷ register_format baro log
    ∷ register_format altitude log
    ∷ add_parameter log (some (codes "int32_t ALTITUDE_SOURCE_TYPE_BARO"))
        (length (codes "int32_t ALTITUDE_SOURCE_TYPE_BARO"))
        (some (le_bytes 4 altitude_source_type_baro))
    ∷ add_info_of (codes "char[3] sys_name") (codes "EFC")
    ∷ add_info_of (main_imu_name_key imu) (main_imu_name imu)
    ∷ add_info_of (codes "char[6] main_baro_name") (codes "BMP280")
    ∷ []

-- What `zbus_sub_wait` returns, with what is in `msg` after `zbus_chan_read`, whose failure is only
-- reported; `other_chan` is any further channel.
pub data Event : Type 0 where
  imu_chan : Imu6dofData → Event
  baro_chan : BaroData → Event
  sync_chan other_chan wait_failed : Event

-- `44330.0f * (1.0f - powf((msg.pressure_kpa / 101.325f), 1.0f / 5.255f))`
abbrev pub altitude_of : FloatUnit → ℕ → ℕ
altitude_of fpu pressure_kpa = fpu.mul 0x472d2a00 (
    fpu.sub 0x3f800000 (fpu.powf (fpu.div pressure_kpa 0x42caa666) (fpu.div 0x3f800000 0x40a828f6)))

-- `gyro_msg_id`, `accel_msg_id`, `baro_msg_id` and `baro_alt_msg_id`
pub record MsgIds : Type 0 where
  pub gyro_msg_id : ℕ
  pub accel_msg_id : ℕ
  pub baro_msg_id : ℕ
  pub baro_alt_msg_id : ℕ

-- The body of the loop.
abbrev pub event_calls : FloatUnit → MsgIds → Event → List Call
event_calls fpu ids (imu_chan msg) =
    write gyro log (some (msg.timestamp_us ∷ msg.gyro_x ∷ msg.gyro_y ∷ msg.gyro_z ∷ []))
      ids.gyro_msg_id
    ∷ write accel log (some (msg.timestamp_us ∷ msg.accel_x ∷ msg.accel_y ∷ msg.accel_z ∷ []))
        ids.accel_msg_id
    ∷ []
event_calls fpu ids (baro_chan msg) =
    write baro log (some (msg.timestamp_us ∷ msg.temperature_degc ∷ msg.pressure_kpa ∷ []))
      ids.baro_msg_id
    ∷ write altitude log
        (some (
          msg.timestamp_us
          ∷ altitude_source_type_baro
          ∷ altitude_of fpu msg.pressure_kpa
          ∷ bmp280_altitude_variance_m
          ∷ []))
        ids.baro_alt_msg_id
    ∷ []
event_calls fpu ids sync_chan = sync log ∷ []
event_calls fpu ids _ = []

-- The loop ends when the wait fails.
abbrev pub loop_calls : FloatUnit → MsgIds → List Event → List Call
loop_calls fpu ids [] = []
loop_calls fpu ids (wait_failed ∷ es) = []
loop_calls fpu ids (e ∷ es) = event_calls fpu ids e ++ loop_calls fpu ids es

module _ (os : Platform) where
  -- The globals of logger.c; `enabled` is the state of the observer `logger_sub`.
  pub record Logger : Type 0 where
    pub ulog_log : Inst os
    pub msg_ids : MsgIds
    pub enabled : Bool

  abbrev pub Logging : Type 0
  Logging = List (Result ErrorType Unit) × Logger

  unfoldable pub do_calls : List Call → Logger → Logging
  do_calls cs w = let (rs, l) = run os cs w.ulog_log in (rs, record w { ulog_log = l })

  -- One after the other, with all results.
  abbrev pub in_turn : (Logger → Logging) → (Logger → Logging) → Logger → Logging
  in_turn f g w = let (rs, w') = f w in let (ss, w'') = g w' in (rs ++ ss, w'')

  abbrev pub forget : {A : Type 0} → Result ErrorType A → Result ErrorType Unit
  forget (ok a) = ok tt
  forget (err e) = err e

  -- `*msg_id` is written by a call that succeeds only.
  abbrev pub store : (ℕ → MsgIds → MsgIds) → Result ErrorType ℕ → MsgIds → MsgIds
  store set (ok id) ids = set id ids
  store set (err e) ids = ids

  -- One of the four subscriptions; `set` assigns the message id.
  unfoldable pub subscribe_to : Definition → (ℕ → MsgIds → MsgIds) → Logger → Logging
  subscribe_to d set w =
      let (r, l) = Generated.subscribe os d log 0 w.ulog_log in
      (forget r ∷ [], record w { ulog_log = l; msg_ids = store set r w.msg_ids })

  unfoldable pub loop : FloatUnit → List Event → Logger → Logging
  loop fpu es w = do_calls (loop_calls fpu w.msg_ids es) (record w { enabled = true })

  unfoldable pub logger_started : FloatUnit → PrimaryImu → List Event → Logger → Logging
  unfolding do_calls subscribe_to loop
  logger_started fpu imu es = in_turn (do_calls (definition_calls imu)) (
      in_turn (do_calls (start_data_phase ∷ [])) (
        in_turn (subscribe_to gyro (λ id ids. record ids { gyro_msg_id = id })) (
          in_turn (subscribe_to accel (λ id ids. record ids { accel_msg_id = id })) (
            in_turn (subscribe_to baro (λ id ids. record ids { baro_msg_id = id })) (
              in_turn (subscribe_to altitude (λ id ids. record ids { baro_alt_msg_id = id }))
                (loop fpu es))))))

  abbrev pub after_init : Result ErrorType Unit → (Logger → Logging) → Logger → Logging
  after_init (ok u) f w = f w
  after_init (err e) f w = (err e ∷ [], record w { enabled = false })

  -- `logger` for a sequence of events, with the name of its log file.
  unfoldable pub logger : FloatUnit → PrimaryImu → List ℕ → List Event → Logger → Logging
  unfolding logger_started
  logger fpu imu filename es w =
      let (r, l) = Api.init os log (some filename) w.ulog_log in
      after_init r (logger_started fpu imu es) (record w { ulog_log = l })
