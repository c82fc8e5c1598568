-- ===== src/App/Logger/Log.antt =====
-- What the log of the logger thread holds.
use mathlib.Core.Logic.{if_pos}
use efc.Common.{
  ℕ, ◌≡◌, ◌≢◌, refl, ap, ◌∙◌, List, [], ◌∷◌, ◌++◌, append_assoc, append-nil, some, codes, le_bytes,
  take, All,
}
use efc.Common.Exec.{Result, ok, err}
use efc.Ulog.Types.{
  ErrorType, filesystem_error, wrong_phase, Phase, phase_definitions, phase_data, log,
}
use efc.Ulog.Message.{Message, format, info, parameter, subscription, logged, synchronized}
use efc.Ulog.Generated
use efc.Ulog.Generated.Messages.{field_bytes}
use efc.Ulog.Session.{
  register_format, add_info, add_parameter, write, sync, Call, Journal, promise, promises,
  append_to, only_in, Phase-discrete,
}
use efc.App.Logger.{
  FloatUnit, PrimaryImu, mpu6050, icm42688p, definition_calls, Event, imu_chan, baro_chan,
  sync_chan, other_chan, wait_failed, altitude_of, MsgIds, gyro, accel, baro, altitude, loop_calls,
}

abbrev main_imu : PrimaryImu → Message
main_imu mpu6050 = info (codes "char[7] main_imu_name") (codes "MPU6050")
main_imu icm42688p = info (codes "char[9] main_imu_name") (codes "ICM42688P")

-- The definitions of a log: formats, a parameter, and what the system is.
abbrev pub definition_messages : PrimaryImu → List Message
definition_messages imu =
    format (codes "gyro:uint64_t timestamp;float x;float y;float z;")
    ∷ format (codes "accel:uint64_t timestamp;float x;float y;float z;")
    ∷ format (codes "baro:uint64_t timestamp;float temperature;float pressure;")
    ∷ format (codes "altitude:uint64_t timestamp;uint8_t source;float altitude;float variance;")
    ∷ parameter (codes "int32_t ALTITUDE_SOURCE_TYPE_BARO") (1 ∷ 0 ∷ 0 ∷ 0 ∷ [])
    ∷ info (codes "char[3] sys_name") (codes "EFC")
    ∷ main_imu imu
    ∷ info (codes "char[6] main_baro_name") (codes "BMP280")
    ∷ []

-- Four streams, with the message ids 0 to 3.
abbrev pub stream_messages : List Message
stream_messages =
    subscription 0 0 (codes "gyro")
    ∷ subscription 0 1 (codes "accel")
    ∷ subscription 0 2 (codes "baro")
    ∷ subscription 0 3 (codes "altitude")
    ∷ []

-- The messages of an event.
abbrev pub event_messages : FloatUnit → Event → List Message
event_messages fpu (imu_chan msg) =
    logged 0 (
      le_bytes 8 msg.timestamp_us
      ++ le_bytes 4 msg.gyro_x
      ++ le_bytes 4 msg.gyro_y
      ++ le_bytes 4 msg.gyro_z)
    ∷ logged 1 (
        le_bytes 8 msg.timestamp_us
        ++ le_bytes 4 msg.accel_x
        ++ le_bytes 4 msg.accel_y
        ++ le_bytes 4 msg.accel_z)
    ∷ []
event_messages fpu (baro_chan msg) =
    logged 2 (
      le_bytes 8 msg.timestamp_us ++ le_bytes 4 msg.temperature_degc ++ le_bytes 4 msg.pressure_kpa)
    ∷ logged 3 (
        le_bytes 8 msg.timestamp_us
        ++ 1 ∷ le_bytes 4 (altitude_of fpu msg.pressure_kpa)
        ++ le_bytes 4 0x3c8b4396)
    ∷ []
event_messages fpu sync_chan = synchronized ∷ []
event_messages fpu _ = []

-- The messages of the events before a failed wait.
abbrev pub loop_messages : FloatUnit → List Event → List Message
loop_messages fpu [] = []
loop_messages fpu (wait_failed ∷ es) = []
loop_messages fpu (e ∷ es) = event_messages fpu e ++ loop_messages fpu es

abbrev pub AllOk : List (Result ErrorType Unit) → Type 0
AllOk = All (λ r. r ≡ ok tt)

-- No call reports ULOG_FILESYSTEM_ERROR.
abbrev pub NoFault : List (Result ErrorType Unit) → Type 0
NoFault = All (λ r. r ≢ err filesystem_error)

-- Every call is promised success, and the messages are added in this order.
pub record Adds (cs : List Call) (p : Phase) (ms : List Message) : Type 0 where
  pub added :
      (j : Journal)
      → j.phase ≡ p
      → AllOk (promises cs j).0 × ((promises cs j).1 ≡ record j { messages = j.messages ++ ms })

record AddsOne (c : Call) (p : Phase) (m : Message) : Type 0 where
  one : (j : Journal) → j.phase ≡ p → promise c j ≡ (ok tt, append_to j m)

none_added : {p : Phase} → Adds [] p []
unfolding promises
none_added = record { added = λ j e. (tt, rw append-nil refl) }

and_then :
    {c : Call} {cs : List Call} {p : Phase} {m : Message} {ms : List Message}
    → AddsOne c p m
    → Adds cs p ms
    → Adds (c ∷ cs) p (m ∷ ms)
unfolding promises
and_then {c} {cs} {p} {m} {ms} first rest = record { added = added }
  where
    added :
        (j : Journal)
        → j.phase ≡ p
        → AllOk (promises (c ∷ cs) j).0
          × ((promises (c ∷ cs) j).1 ≡ record j { messages = j.messages ++ m ∷ ms })
    added j e =
        let more = rest.added (append_to j m) e in
        rw (first.one j e) (
          (refl, more.0),
          more.1 ∙ ap (λ l. record j { messages = l }) (append_assoc j.messages (m ∷ []) ms),
        )

-- The message ids that the four subscriptions get.
abbrev pub streams : MsgIds
streams = record { gyro_msg_id = 0; accel_msg_id = 1; baro_msg_id = 2; baro_alt_msg_id = 3 }

-- A call that is bound to a phase passes there.
pub bound : (p : Phase) (j j' : Journal) → j.phase ≡ p → only_in p j j' ≡ (ok tt, j')
bound p j j' e = if_pos (Phase-discrete j.phase p) e (ok tt, j') (err wrong_phase, j)

adds_format :
    (d : Generated.Definition)
    → AddsOne (register_format d log) phase_definitions (format (Generated.format_string d))
unfolding promise
adds_format d = record { one = λ j e. bound phase_definitions j _ e }

adds_info :
    (key : List ℕ) (key_len : ℕ) (val : List ℕ) (val_len : ℕ)
    → AddsOne
        (add_info log (some key) key_len (some val) val_len)
        phase_definitions
        (info (take key_len key) (take val_len val))
unfolding promise
adds_info key key_len val val_len = record { one = λ j e. bound phase_definitions j _ e }

adds_parameter :
    (key : List ℕ) (key_len : ℕ) (val : List ℕ)
    → AddsOne
        (add_parameter log (some key) key_len (some val))
        phase_definitions
        (parameter (take key_len key) (take 4 val))
unfolding promise
adds_parameter key key_len val = record { one = λ j e. refl }

adds_write :
    (d : Generated.Definition) (values : List ℕ) (msg_id : ℕ)
    → AddsOne
        (write d log (some values) msg_id)
        phase_data
        (logged msg_id (field_bytes d.fields values))
unfolding promise
adds_write d values msg_id = record { one = λ j e. bound phase_data j _ e }

adds_sync : AddsOne (sync log) phase_data synchronized
unfolding promise
adds_sync = record { one = λ j e. bound phase_data j _ e }

pub definition_calls-Adds :
    (imu : PrimaryImu) → Adds (definition_calls imu) phase_definitions (definition_messages imu)
definition_calls-Adds mpu6050 = and_then (adds_format gyro) (
    and_then (adds_format accel) (
      and_then (adds_format baro) (
        and_then (adds_format altitude) (
          and_then (adds_parameter _ _ _) (
            and_then (adds_info _ _ _ _)
              (and_then (adds_info _ _ _ _) (and_then (adds_info _ _ _ _) none_added)))))))
definition_calls-Adds icm42688p = and_then (adds_format gyro) (
    and_then (adds_format accel) (
      and_then (adds_format baro) (
        and_then (adds_format altitude) (
          and_then (adds_parameter _ _ _) (
            and_then (adds_info _ _ _ _)
              (and_then (adds_info _ _ _ _) (and_then (adds_info _ _ _ _) none_added)))))))

pub loop_calls-Adds :
    (fpu : FloatUnit) (es : List Event)
    → Adds (loop_calls fpu streams es) phase_data (loop_messages fpu es)
loop_calls-Adds fpu [] = none_added
loop_calls-Adds fpu (wait_failed ∷ es) = none_added
loop_calls-Adds fpu (other_chan ∷ es) = loop_calls-Adds fpu es
loop_calls-Adds fpu (sync_chan ∷ es) = and_then adds_sync (loop_calls-Adds fpu es)
loop_calls-Adds fpu (imu_chan msg ∷ es) =
    and_then (adds_write gyro _ 0) (and_then (adds_write accel _ 1) (loop_calls-Adds fpu es))
loop_calls-Adds fpu (baro_chan msg ∷ es) =
    and_then (adds_write baro _ 2) (and_then (adds_write altitude _ 3) (loop_calls-Adds fpu es))
