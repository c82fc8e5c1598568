-- ===== src/App/Telemetry.antt =====
-- The telemetry threads: app/src/telemetry_packer.c packs messages into a pipe, and
-- app/src/telemetry_sender.c passes the bytes of the pipe to a UART. The MAVLink library, the pipe
-- and the UART are parameters.
pub mod Order
pub mod Whole
pub mod Complete
pub mod Rig
mod Examples
use efc.Common.{
  ℕ, suc, ◌+◌, ◌/◌, ◌%◌, ◌^◌, ◌≤◌, ◌≡◌, List, [], ◌∷◌, ◌++◌, Bool, true, false, ℤ, pos, negsuc,
  take, length, if◌then◌else◌,
}
use efc.App.Logger.{Imu6dofData, BaroData}

-- The generated MAVLink functions; `Status` is the state of the channel, which has the sequence
-- number of the next message. The arguments of a message are in their order, a float as its bits.
pub record Mavlink : Type 1 where
  pub Status : Type 0
  pub Message : Type 0
  pub scaled_imu_pack_chan : ℕ → ℕ → ℕ → List ℕ → Status → Message × Status
  pub scaled_pressure_pack_chan : ℕ → ℕ → ℕ → List ℕ → Status → Message × Status
  pub heartbeat_pack_chan : ℕ → ℕ → ℕ → List ℕ → Status → Message × Status
  pub msg_to_send_buffer : Message → List ℕ
  pub mav_comp_id_autopilot1 : ℕ
  pub mavlink_comm_0 : ℕ
  pub mav_type_generic : ℕ
  pub mav_autopilot_generic : ℕ
  pub mav_mode_flag_manual_input_enabled : ℕ
  pub mav_state_active : ℕ

-- Single precision multiplication and the conversion to `int16_t`, on bit patterns.
pub record Convert : Type 0 where
  pub mul : ℕ → ℕ → ℕ
  pub to_i16 : ℕ → ℕ

-- `telemetry_ground_pipe` and the UART.
pub record Pipe : Type 1 where
  pub State : Type 0
  pub k_pipe_write : List ℕ → State → ℤ × State
  -- the result and `read_byte` after the call
  pub k_pipe_read : State → ℤ × ℕ × State
  pub uart_poll_out : ℕ → State → State

-- The bytes that wait in the pipe and those that the UART has sent. A write that returns a count has
-- put in that many of its bytes, from the first on; a read that returns a positive count has taken
-- out the oldest byte.
pub record IsPipe (io : Pipe) : Type 0 where
  pub queued : io.State → List ℕ
  pub sent : io.State → List ℕ
  pub write_some :
      (bs : List ℕ) (s : io.State) (n : ℕ)
      → (io.k_pipe_write bs s).0 ≡ pos n
      → queued (io.k_pipe_write bs s).1 ≡ queued s ++ take n bs
  pub write_none :
      (bs : List ℕ) (s : io.State) (n : ℕ)
      → (io.k_pipe_write bs s).0 ≡ negsuc n
      → queued (io.k_pipe_write bs s).1 ≡ queued s
  pub write_sent : (bs : List ℕ) (s : io.State) → sent (io.k_pipe_write bs s).1 ≡ sent s
  pub read_some :
      (s : io.State) (n : ℕ)
      → (io.k_pipe_read s).0 ≡ pos (suc n)
      → queued s ≡ (io.k_pipe_read s).1 ∷ queued (io.k_pipe_read s).2
  pub read_zero :
      (s : io.State) → (io.k_pipe_read s).0 ≡ pos 0 → queued (io.k_pipe_read s).2 ≡ queued s
  pub read_none :
      (s : io.State) (n : ℕ)
      → (io.k_pipe_read s).0 ≡ negsuc n
      → queued (io.k_pipe_read s).2 ≡ queued s
  pub read_sent : (s : io.State) → sent (io.k_pipe_read s).2 ≡ sent s
  pub out_sent : (b : ℕ) (s : io.State) → sent (io.uart_poll_out b s) ≡ sent s ++ b ∷ []
  pub out_queued : (b : ℕ) (s : io.State) → queued (io.uart_poll_out b s) ≡ queued s

-- What `zbus_sub_wait` returns to the packer, with what is in `msg` after `zbus_chan_read`.
pub data Event : Type 0 where
  imu_chan : Imu6dofData → Event
  baro_chan : BaroData → Event
  heartbeat_chan other_chan wait_failed : Event

-- `ret > 0`
abbrev pub is_positive : ℤ → Bool
is_positive (pos ℕ.zero) = false
is_positive (pos (ℕ.suc n)) = true
is_positive (negsuc n) = false

-- `telemetry_system_id`
abbrev pub telemetry_system_id : ℕ
telemetry_system_id = 0

-- The bits of 1000.0f, 100.0f and 10.0f.
abbrev pub thousand : ℕ
thousand = 0x447a0000

abbrev pub hundred : ℕ
hundred = 0x42c80000

abbrev pub ten : ℕ
ten = 0x41200000

-- One round of either thread. They share nothing but the pipe, which each round of the packer uses in
-- one call.
pub data Round : Type 0 where
  packer : Event → Round
  sender : Round

module _ (mav : Mavlink) (fpu : Convert) where
  -- The packet of an event and the status after it; `time_boot_ms` is a `uint32_t`.
  unfoldable pub pack_imu : Imu6dofData → mav.Status → mav.Message × mav.Status
  pack_imu msg =
      mav.scaled_imu_pack_chan telemetry_system_id mav.mav_comp_id_autopilot1 mav.mavlink_comm_0 (
        msg.timestamp_us / 1000 % 2 ^ 32
        ∷ fpu.to_i16 (fpu.mul msg.accel_x thousand)
        ∷ fpu.to_i16 (fpu.mul msg.accel_y thousand)
        ∷ fpu.to_i16 (fpu.mul msg.accel_z thousand)
        ∷ fpu.to_i16 (fpu.mul msg.gyro_x thousand)
        ∷ fpu.to_i16 (fpu.mul msg.gyro_y thousand)
        ∷ fpu.to_i16 (fpu.mul msg.gyro_z thousand)
        ∷ 0
        ∷ 0
        ∷ 0
        ∷ fpu.to_i16 (fpu.mul msg.temperature_degc hundred)
        ∷ [])

  unfoldable pub pack_baro : BaroData → mav.Status → mav.Message × mav.Status
  pack_baro msg =
      mav.scaled_pressure_pack_chan telemetry_system_id mav.mav_comp_id_autopilot1
        mav.mavlink_comm_0
        (msg.timestamp_us / 1000 % 2 ^ 32
          ∷ fpu.mul msg.pressure_kpa ten
          ∷ 0
          ∷ fpu.to_i16 (fpu.mul msg.temperature_degc hundred)
          ∷ 0
          ∷ [])

  unfoldable pub pack_heartbeat : mav.Status → mav.Message × mav.Status
  pack_heartbeat =
      mav.heartbeat_pack_chan telemetry_system_id mav.mav_comp_id_autopilot1 mav.mavlink_comm_0 (
        mav.mav_type_generic ∷ mav.mav_autopilot_generic ∷ mav.mav_mode_flag_manual_input_enabled
        ∷ 0 ∷ mav.mav_state_active ∷ [])

  module _ (io : Pipe) where
    -- The packer and the shared pipe; `packing` is false once the packer's thread has returned.
    pub record World : Type 0 where
      pub status : mav.Status
      pub packing : Bool
      pub wire : io.State

    -- `mavlink_msg_to_send_buffer` and `k_pipe_write`, whose failure is only reported.
    unfoldable pub send_packet : mav.Message × mav.Status → World → World
    send_packet (msg, status') w = record w {
      status = status';
      wire = (io.k_pipe_write (mav.msg_to_send_buffer msg) w.wire).1;
    }

    -- The body of the packer's loop.
    unfoldable pub pack_event : Event → World → World
    unfolding pack_imu pack_baro pack_heartbeat send_packet
    pack_event (imu_chan msg) w = send_packet (pack_imu msg w.status) w
    pack_event (baro_chan msg) w = send_packet (pack_baro msg w.status) w
    pack_event heartbeat_chan w = send_packet (pack_heartbeat w.status) w
    pack_event other_chan w = w
    pack_event wait_failed w = record w { packing = false }

    -- The body of the sender's loop.
    unfoldable pub forward_byte : World → World
    forward_byte w =
        let (ret, read_byte, wire') = io.k_pipe_read w.wire in
        if is_positive ret
        then record w { wire = io.uart_poll_out read_byte wire' }
        else record w { wire = wire' }

    unfoldable pub step : Round → World → World
    unfolding pack_event forward_byte
    step (packer e) w = if w.packing then pack_event e w else w
    step sender w = forward_byte w

    unfoldable pub run : List Round → World → World
    unfolding step
    run [] w = w
    run (r ∷ rs) w = run rs (step r w)
