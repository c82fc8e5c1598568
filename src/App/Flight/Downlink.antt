-- ===== src/App/Flight/Downlink.antt =====
-- From the sensors to the telemetry link.
use efc.Common.{
  ℕ, ◌+◌, ◌/◌, ◌%◌, ◌^◌, ◌≤◌, ◌≡◌, refl, ap, ◌∙◌, List, [], ◌∷◌, ◌++◌, true, map, All, arith,
  length, Bool,
}
use efc.App.Logger.{Imu6dofData, BaroData}
use efc.App.Bus.{
  Notice, imu, baro, told, failed, sync_chan, imu_chan, baro_chan, heartbeat_chan, packer_event,
  telemetry_packer_sub, Zbus,
}
use efc.App.Bus.Laws.{IsZbus, ReadsInTime}
use efc.App.Telemetry
use efc.App.Telemetry.{
  Mavlink, Convert, Pipe, IsPipe, telemetry_system_id, thousand, hundred, ten, pack_imu, pack_baro,
  pack_heartbeat, Round,
}
use efc.App.Telemetry.Order.{events, packets}
use efc.App.Telemetry.Whole.{HasRoom}
use efc.App.Telemetry.Complete.{bytes, senders, all_sent}
use efc.App.Startup.{Board}
use efc.App.Flight.{Turn, Flight, goes_on, run}
use efc.App.Flight.Acts.{IsStill, unread}
use efc.App.Flight.Caught.{imus, baros}
use efc.App.Flight.Heard.{KeepsUp, every_sample_heard, run-HasCaught, at_start}

-- A MAVLink message by its kind and its fields.
pub data Frame : Type 0 where
  scaled_imu scaled_pressure : List ℕ → Frame
  heartbeat : Frame

abbrev pub imu_frames : List Frame → List (List ℕ)
imu_frames [] = []
imu_frames (scaled_imu fields ∷ fs) = fields ∷ imu_frames fs
imu_frames (_ ∷ fs) = imu_frames fs

abbrev pub pressure_frames : List Frame → List (List ℕ)
pressure_frames [] = []
pressure_frames (scaled_pressure fields ∷ fs) = fields ∷ pressure_frames fs
pressure_frames (_ ∷ fs) = pressure_frames fs

module _ (fpu : Convert) where
  -- A float times a factor, as a 16-bit integer.
  abbrev pub scaled : ℕ → ℕ → ℕ
  scaled factor x = fpu.to_i16 (fpu.mul x factor)

  -- The time in milliseconds, acceleration, rates, no magnetic field, the temperature.
  abbrev pub imu_fields : Imu6dofData → List ℕ
  imu_fields m =
      m.timestamp_us / 1000 % 2 ^ 32
        ∷ map (scaled thousand)
            (m.accel_x ∷ m.accel_y ∷ m.accel_z ∷ m.gyro_x ∷ m.gyro_y ∷ m.gyro_z ∷ [])
      ++ 0 ∷ 0 ∷ 0 ∷ scaled hundred m.temperature_degc ∷ []

  -- The time in milliseconds, the pressure in hectopascal, no difference, the temperature, and none
  -- of the sensor of the difference.
  abbrev pub pressure_fields : BaroData → List ℕ
  pressure_fields m =
      m.timestamp_us / 1000 % 2 ^ 32
      ∷ fpu.mul m.pressure_kpa ten
      ∷ 0
      ∷ scaled hundred m.temperature_degc
      ∷ 0
      ∷ []

  -- What the packer makes of its notices.
  abbrev frames_of : List Notice → List Frame
  frames_of [] = []
  frames_of (imu m ∷ ns) = scaled_imu (imu_fields m) ∷ frames_of ns
  frames_of (baro m ∷ ns) = scaled_pressure (pressure_fields m) ∷ frames_of ns
  frames_of (told heartbeat_chan ∷ ns) = heartbeat ∷ frames_of ns
  frames_of (told c ∷ ns) = frames_of ns
  frames_of (failed ∷ ns) = frames_of ns

  -- Its frames of either sensor are those of the samples it has had.
  frames-imus : (ns : List Notice) → imu_frames (frames_of ns) ≡ map imu_fields (imus ns)
  frames-imus [] = refl
  frames-imus (imu m ∷ ns) = ap (λ l. imu_fields m ∷ l) (frames-imus ns)
  frames-imus (baro m ∷ ns) = frames-imus ns
  frames-imus (told heartbeat_chan ∷ ns) = frames-imus ns
  frames-imus (told sync_chan ∷ ns) = frames-imus ns
  frames-imus (told imu_chan ∷ ns) = frames-imus ns
  frames-imus (told baro_chan ∷ ns) = frames-imus ns
  frames-imus (failed ∷ ns) = frames-imus ns

  frames-baros :
      (ns : List Notice) → pressure_frames (frames_of ns) ≡ map pressure_fields (baros ns)
  frames-baros [] = refl
  frames-baros (imu m ∷ ns) = frames-baros ns
  frames-baros (baro m ∷ ns) = ap (λ l. pressure_fields m ∷ l) (frames-baros ns)
  frames-baros (told heartbeat_chan ∷ ns) = frames-baros ns
  frames-baros (told sync_chan ∷ ns) = frames-baros ns
  frames-baros (told imu_chan ∷ ns) = frames-baros ns
  frames-baros (told baro_chan ∷ ns) = frames-baros ns
  frames-baros (failed ∷ ns) = frames-baros ns

  module _ (mav : Mavlink) where
    -- The message of a frame on the channel with this status.
    abbrev pub pack_frame : Frame → mav.Status → mav.Message × mav.Status
    pack_frame (scaled_imu fields) st =
        mav.scaled_imu_pack_chan 0 mav.mav_comp_id_autopilot1 mav.mavlink_comm_0 fields st
    pack_frame (scaled_pressure fields) st =
        mav.scaled_pressure_pack_chan 0 mav.mav_comp_id_autopilot1 mav.mavlink_comm_0 fields st
    pack_frame heartbeat st =
        mav.heartbeat_pack_chan 0 mav.mav_comp_id_autopilot1 mav.mavlink_comm_0
          (mav.mav_type_generic ∷ mav.mav_autopilot_generic ∷ mav.mav_mode_flag_manual_input_enabled
            ∷ 0 ∷ mav.mav_state_active ∷ [])
          st

    -- The packets of frames that follow each other, each with the status after those before it.
    abbrev pub encode : List Frame → mav.Status → List (List ℕ)
    encode [] st = []
    encode (f ∷ fs) st = let (m, st') = pack_frame f st in mav.msg_to_send_buffer m ∷ encode fs st'

    packets-encode :
        (ns : List Notice) (st : mav.Status)
        → All (λ n. goes_on n ≡ true) ns
        → packets mav fpu (map packer_event ns) st ≡ encode (frames_of ns) st
    unfolding pack_imu pack_baro pack_heartbeat
    packets-encode [] st g = refl
    packets-encode (imu m ∷ ns) st (g, gs) =
        let p = pack_frame (scaled_imu (imu_fields m)) st in
        ap (λ l. mav.msg_to_send_buffer p.0 ∷ l) (packets-encode ns p.1 gs)
    packets-encode (baro m ∷ ns) st (g, gs) =
        let p = pack_frame (scaled_pressure (pressure_fields m)) st in
        ap (λ l. mav.msg_to_send_buffer p.0 ∷ l) (packets-encode ns p.1 gs)
    packets-encode (told heartbeat_chan ∷ ns) st (g, gs) =
        let p = pack_frame heartbeat st in
        ap (λ l. mav.msg_to_send_buffer p.0 ∷ l) (packets-encode ns p.1 gs)
    packets-encode (told sync_chan ∷ ns) st (g, gs) = packets-encode ns st gs
    packets-encode (told imu_chan ∷ ns) st (g, gs) = packets-encode ns st gs
    packets-encode (told baro_chan ∷ ns) st (g, gs) = packets-encode ns st gs
    packets-encode (failed ∷ ns) st (g, gs) = absurd (ground (arith, g))

    -- Bytes that are the packets of frames, whose sensor frames are these samples.
    pub record IsDownlinked (st : mav.Status) (stream : List ℕ) (is : List Imu6dofData)
        (bs : List BaroData) : Type 0 where
      pub frames : List Frame
      pub packed : stream ≡ bytes (encode frames st)
      pub of_imu : imu_frames frames ≡ map imu_fields is
      pub of_baro : pressure_frames frames ≡ map pressure_fields bs

module _ {b : Board} {z : Zbus b.drivers} (bus : IsZbus z) (still : IsStill b bus)
    (in_time : ReadsInTime z) (mav : Mavlink) (fpu : Convert) {io : Pipe} (pipe : IsPipe io)
    {capacity : ℕ} (room : HasRoom pipe capacity) where
  -- With zbus as IsZbus describes it, where the LED and a pause leave it alone and no read of a
  -- channel fails, and a pipe as IsPipe and HasRoom describe it, whose room is enough for what
  -- waits and all packets of the packer's events: however main, the interrupt, the timers, and
  -- the waits and reads of the threads take turns, if whenever the interrupt or the running
  -- main samples a sensor the queues have room and the packer has read the sensor's channel,
  -- the packer has heard nothing yet and starts and ends with nothing waiting and nothing about
  -- to be read, then however its rounds on what it has heard are interleaved with the sender's,
  -- while it runs at the start, and if as many rounds of the sender follow as there are bytes,
  -- the UART has sent what waited and then a stream that is the packets of MAVLink frames, each
  -- packed with the status that the one before it left; its SCALED_IMU and SCALED_PRESSURE
  -- frames have the fields of exactly the samples that were published meanwhile, each once and
  -- in order.
  pub every_sample-IsDownlinked :
      (dev : b.drivers.Device) (using_trigger : Bool) (ts : List Turn) (w : Flight b z)
      (rs : List Round) (n : ℕ) (link : Telemetry.World mav fpu io)
      → let w' = run b z dev using_trigger ts w in
        let before = bus.look telemetry_packer_sub w.firmware.io in
        let after = bus.look telemetry_packer_sub w'.firmware.io in
        let waiting = pipe.queued link.wire in
        let load = length waiting + length (bytes (packets mav fpu (events rs) link.status)) in
        w.heard telemetry_packer_sub ≡ []
        → unread bus telemetry_packer_sub w ≡ []
        → KeepsUp bus telemetry_packer_sub dev using_trigger ts w
        → unread bus telemetry_packer_sub w' ≡ []
        → link.packing ≡ true
        → events rs ≡ map packer_event (w'.heard telemetry_packer_sub)
        → load ≤ capacity
        → load ≤ n
        → (is : List Imu6dofData) × (bs : List BaroData) × (stream : List ℕ) × (after.imus
            ≡ before.imus ++ is)
          × (after.baros ≡ before.baros ++ bs)
          × IsDownlinked fpu mav link.status stream is bs
          × (pipe.sent (Telemetry.run mav fpu io (rs ++ senders n) link).wire
              ≡ pipe.sent link.wire ++ waiting ++ stream)
  every_sample-IsDownlinked dev u ts w rs n link h q due q' packing same fits enough =
      let w' = run b z dev u ts w in
      let notices = w'.heard telemetry_packer_sub in
      let heard = every_sample_heard bus telemetry_packer_sub dev u still in_time ts w h q due q' in
      let caught =
        run-HasCaught bus telemetry_packer_sub dev u still in_time w w ts due
          (at_start bus telemetry_packer_sub dev u still in_time w h q) in
      (
        imus notices,
        baros notices,
        bytes (packets mav fpu (events rs) link.status),
        heard.0,
        heard.1,
        record {
          frames = frames_of fpu notices;
          packed =
              ap (λ es. bytes (packets mav fpu es link.status)) same
              ∙ ap bytes (packets-encode fpu mav notices link.status caught.went_on);
          of_imu = frames-imus fpu notices;
          of_baro = frames-baros fpu notices;
        },
        all_sent mav fpu pipe room rs n link packing fits enough,
      )
