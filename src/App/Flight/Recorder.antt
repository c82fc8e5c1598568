-- ===== src/App/Flight/Recorder.antt =====
-- From the sensors to the log file.
use efc.Common.{
  ℕ, ◌≡◌, refl, ap, ◌∙◌, append-nil, drop, drop-nil, length, List, [], ◌∷◌, ◌++◌, some, true, map,
  All, All-append, le_bytes, ◌==◌, if◌then◌else◌, Bool, arith,
}
use efc.Ulog.Platform.{Platform, IsFile, NeverShort, content, old_file}
use efc.Ulog.Message.{Message, logged}
use efc.Ulog.Message.Decode.{IsWellFormed}
use efc.Ulog.Session.ReadBack.{read_messages, read_messages_lem}
use efc.Ulog.Api.Lifecycle.{no_flags}
use efc.App.Logger.{
  Imu6dofData, BaroData, FloatUnit, PrimaryImu, mpu6050, icm42688p, Logger, logger, altitude_of,
}
use efc.App.Logger.Log.{NoFault, definition_messages, stream_messages, loop_messages}
use efc.App.Logger.Keeps.{logger_lem}
use efc.App.Bus.{
  Notice, imu, baro, told, failed, sync_chan, imu_chan, baro_chan, heartbeat_chan, logger_event,
  logger_sub, Zbus,
}
use efc.App.Bus.Laws.{IsZbus, ReadsInTime}
use efc.App.Startup.{Board}
use efc.App.Flight.{Turn, Flight, goes_on, run}
use efc.App.Flight.Acts.{IsStill, unread}
use efc.App.Flight.Caught.{imus, baros}
use efc.App.Flight.Heard.{KeepsUp, every_sample_heard, run-HasCaught, at_start}

-- The data of a stream of the log.
abbrev pub stream : ℕ → List Message → List (List ℕ)
stream id [] = []
stream id (logged n fields ∷ ms) = if n == id then fields ∷ stream id ms else stream id ms
stream id (_ ∷ ms) = stream id ms

-- The data of the four streams for one sample.
abbrev pub gyro_fields : Imu6dofData → List ℕ
gyro_fields m =
    le_bytes 8 m.timestamp_us ++ le_bytes 4 m.gyro_x ++ le_bytes 4 m.gyro_y ++ le_bytes 4 m.gyro_z

abbrev pub accel_fields : Imu6dofData → List ℕ
accel_fields m =
    le_bytes 8 m.timestamp_us
    ++ le_bytes 4 m.accel_x
    ++ le_bytes 4 m.accel_y
    ++ le_bytes 4 m.accel_z

abbrev pub baro_fields : BaroData → List ℕ
baro_fields m =
    le_bytes 8 m.timestamp_us ++ le_bytes 4 m.temperature_degc ++ le_bytes 4 m.pressure_kpa

abbrev pub altitude_fields : FloatUnit → BaroData → List ℕ
altitude_fields fpu m =
    le_bytes 8 m.timestamp_us
    ++ 1 ∷ le_bytes 4 (altitude_of fpu m.pressure_kpa)
    ++ le_bytes 4 0x3c8b4396

-- A file that a reader of logs reads to its end, and whose four streams are these samples.
pub record IsRecorded (fpu : FloatUnit) (file : List ℕ) (is : List Imu6dofData) (bs : List BaroData)
    : Type 0 where
  pub messages : List Message
  pub can_read : read_messages file ≡ some messages
  pub gyro : stream 0 messages ≡ map gyro_fields is
  pub accel : stream 1 messages ≡ map accel_fields is
  pub baro : stream 2 messages ≡ map baro_fields bs
  pub altitude : stream 3 messages ≡ map (altitude_fields fpu) bs

abbrev GoesOn : List Notice → Type 0
GoesOn = All (λ n. goes_on n ≡ true)

-- The four streams of what a thread has heard.
record Streams (fpu : FloatUnit) (ns : List Notice) : Type 0 where
  s0 : stream 0 (loop_messages fpu (map logger_event ns)) ≡ map gyro_fields (imus ns)
  s1 : stream 1 (loop_messages fpu (map logger_event ns)) ≡ map accel_fields (imus ns)
  s2 : stream 2 (loop_messages fpu (map logger_event ns)) ≡ map baro_fields (baros ns)
  s3 : stream 3 (loop_messages fpu (map logger_event ns)) ≡ map (altitude_fields fpu) (baros ns)

loop-Streams : (fpu : FloatUnit) (ns : List Notice) → GoesOn ns → Streams fpu ns
loop-Streams fpu [] g = record { s0 = refl; s1 = refl; s2 = refl; s3 = refl }
loop-Streams fpu (imu m ∷ ns) (g, gs) =
    let r = loop-Streams fpu ns gs in
    record {
      s0 = ap (λ l. gyro_fields m ∷ l) r.s0;
      s1 = ap (λ l. accel_fields m ∷ l) r.s1;
      s2 = r.s2;
      s3 = r.s3;
    }
loop-Streams fpu (baro m ∷ ns) (g, gs) =
    let r = loop-Streams fpu ns gs in
    record {
      s0 = r.s0;
      s1 = r.s1;
      s2 = ap (λ l. baro_fields m ∷ l) r.s2;
      s3 = ap (λ l. altitude_fields fpu m ∷ l) r.s3;
    }
loop-Streams fpu (told sync_chan ∷ ns) (g, gs) =
    let r = loop-Streams fpu ns gs in record { s0 = r.s0; s1 = r.s1; s2 = r.s2; s3 = r.s3 }
loop-Streams fpu (told imu_chan ∷ ns) (g, gs) =
    let r = loop-Streams fpu ns gs in record { s0 = r.s0; s1 = r.s1; s2 = r.s2; s3 = r.s3 }
loop-Streams fpu (told baro_chan ∷ ns) (g, gs) =
    let r = loop-Streams fpu ns gs in record { s0 = r.s0; s1 = r.s1; s2 = r.s2; s3 = r.s3 }
loop-Streams fpu (told heartbeat_chan ∷ ns) (g, gs) =
    let r = loop-Streams fpu ns gs in record { s0 = r.s0; s1 = r.s1; s2 = r.s2; s3 = r.s3 }
loop-Streams fpu (failed ∷ ns) (g, gs) = absurd (ground (arith, g))

loop-IsWellFormed :
    (fpu : FloatUnit) (ns : List Notice)
    → GoesOn ns
    → All IsWellFormed (loop_messages fpu (map logger_event ns))
loop-IsWellFormed fpu [] g = tt
loop-IsWellFormed fpu (imu m ∷ ns) (g, gs) =
    (omega arith, (omega arith, loop-IsWellFormed fpu ns gs))
loop-IsWellFormed fpu (baro m ∷ ns) (g, gs) =
    (omega arith, (omega arith, loop-IsWellFormed fpu ns gs))
loop-IsWellFormed fpu (told sync_chan ∷ ns) (g, gs) = (tt, loop-IsWellFormed fpu ns gs)
loop-IsWellFormed fpu (told imu_chan ∷ ns) (g, gs) = loop-IsWellFormed fpu ns gs
loop-IsWellFormed fpu (told baro_chan ∷ ns) (g, gs) = loop-IsWellFormed fpu ns gs
loop-IsWellFormed fpu (told heartbeat_chan ∷ ns) (g, gs) = loop-IsWellFormed fpu ns gs
loop-IsWellFormed fpu (failed ∷ ns) (g, gs) = absurd (ground (arith, g))

-- What is in the log before the events.
abbrev preamble : PrimaryImu → List Message
preamble choice = no_flags ∷ definition_messages choice ++ stream_messages

preamble-IsWellFormed : (choice : PrimaryImu) → All IsWellFormed (preamble choice)
preamble-IsWellFormed mpu6050 = omega arith
preamble-IsWellFormed icm42688p = omega arith

no_samples_yet :
    (choice : PrimaryImu) (id : ℕ) (ms : List Message)
    → stream id (preamble choice ++ ms) ≡ stream id ms
no_samples_yet mpu6050 id ms = refl
no_samples_yet icm42688p id ms = refl

-- The file of the logger thread on what it has heard.
recorded :
    {os : Platform} (disk : IsFile os) (full : NeverShort os) (fpu : FloatUnit)
    (choice : PrimaryImu) (filename : List ℕ) (log : Logger os) (ns : List Notice)
    → GoesOn ns
    → NoFault (logger os fpu choice filename (map logger_event ns) log).0
    → old_file disk filename log.ulog_log.file ≡ []
    → IsRecorded fpu
        (content disk (logger os fpu choice filename (map logger_event ns) log).1.ulog_log.file)
        (imus ns)
        (baros ns)
recorded {os = os} disk full fpu choice filename log ns g h new =
    let kept = logger_lem disk full fpu choice filename (map logger_event ns) log h in
    let shown = kept.1 in
    let end = (logger os fpu choice filename (map logger_event ns) log).1.ulog_log.file in
    let whole : content disk end ≡ disk.written end =
      ap (λ l. disk.written end ++ l)
        (kept.2 ∙ ap (drop (length (disk.written end))) new ∙ drop-nil (length (disk.written end)))
      ∙ append-nil (disk.written end) in
    let fine =
      All-append IsWellFormed (preamble choice) (loop_messages fpu (map logger_event ns))
        (preamble-IsWellFormed choice) (loop-IsWellFormed fpu ns g) in
    let r = loop-Streams fpu ns g in
    record {
      messages = preamble choice ++ loop_messages fpu (map logger_event ns);
      can_read =
          ap read_messages whole
          ∙ read_messages_lem _ shown.start_us shown.messages shown.holds (rw shown.same fine)
          ∙ ap (λ ms. some ms) shown.same;
      gyro = no_samples_yet choice 0 _ ∙ r.s0;
      accel = no_samples_yet choice 1 _ ∙ r.s1;
      baro = no_samples_yet choice 2 _ ∙ r.s2;
      altitude = no_samples_yet choice 3 _ ∙ r.s3;
    }

module _ {b : Board} {z : Zbus b.drivers} (bus : IsZbus z) (still : IsStill b bus)
    (in_time : ReadsInTime z) {os : Platform} (disk : IsFile os) (full : NeverShort os) where
  -- With zbus as IsZbus describes it, where the LED and a pause leave it alone and no read of a
  -- channel fails, and a file system as IsFile and NeverShort describe it: however main, the
  -- interrupt, the timers, and the waits and reads of the threads take turns, if whenever the
  -- interrupt or the running main samples a sensor the queues have room and the logger has read
  -- the sensor's channel, the logger has heard nothing yet and starts and ends with nothing
  -- waiting and nothing about to be read, no call of the log writer reports
  -- ULOG_FILESYSTEM_ERROR, and no file of the log's name held anything before, then a reader
  -- reads the whole file to its end and finds in the streams 0 to 3 the gyroscope,
  -- acceleration, barometer and altitude data of exactly the samples that were published
  -- meanwhile, each once and in order.
  pub every_sample-IsRecorded :
      (dev : b.drivers.Device) (using_trigger : Bool) (ts : List Turn) (w : Flight b z)
      (fpu : FloatUnit) (choice : PrimaryImu) (filename : List ℕ) (log : Logger os)
      → let w' = run b z dev using_trigger ts w in
        let before = bus.look logger_sub w.firmware.io in
        let after = bus.look logger_sub w'.firmware.io in
        let out = logger os fpu choice filename (map logger_event (w'.heard logger_sub)) log in
        w.heard logger_sub ≡ []
        → unread bus logger_sub w ≡ []
        → KeepsUp bus logger_sub dev using_trigger ts w
        → unread bus logger_sub w' ≡ []
        → NoFault out.0
        → old_file disk filename log.ulog_log.file ≡ []
        → (is : List Imu6dofData) × (bs : List BaroData) × (after.imus ≡ before.imus ++ is)
          × (after.baros ≡ before.baros ++ bs)
          × IsRecorded fpu (content disk out.1.ulog_log.file) is bs
  every_sample-IsRecorded dev u ts w fpu choice filename log h q due q' fine new =
      let w' = run b z dev u ts w in
      let heard = every_sample_heard bus logger_sub dev u still in_time ts w h q due q' in
      let caught =
        run-HasCaught bus logger_sub dev u still in_time w w ts due
          (at_start bus logger_sub dev u still in_time w h q) in
      (
        imus (w'.heard logger_sub),
        baros (w'.heard logger_sub),
        heard.0,
        heard.1,
        recorded disk full fpu choice filename log (w'.heard logger_sub) caught.went_on fine new,
      )
