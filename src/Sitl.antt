-- ===== src/Sitl.antt =====
-- sitl/app/src/main.c: the simulator's program, which sends a heartbeat by UDP each second. libuv and
-- the MAVLink library are parameters.
pub mod Heartbeats
mod Examples
use efc.Common.{ℕ, List, [], ◌∷◌, ◌++◌, ℤ, codes, drop, length}
use efc.App.Telemetry.{Mavlink}

-- libuv, with the socket and the loop; `Address` is a `struct sockaddr_in`. A send is given the
-- buffer by reference: libuv takes its bytes as they are when it sends, in the call or later.
pub record Uv : Type 1 where
  pub State : Type 0
  pub Address : Type 0
  pub uv_ip4_addr : List ℕ → ℕ → Address
  pub uv_udp_init : State → State
  pub uv_timer_init : State → State
  -- timeout and repeat in milliseconds
  pub uv_timer_start : ℕ → ℕ → State → State
  -- the buffer, the length, where to
  pub uv_udp_send : List ℕ → ℕ → Address → State → ℤ × State
  -- the loop looks after the socket, while the buffer holds these bytes
  pub uv_io_poll : List ℕ → State → State
  pub uv_loop_close : State → State

-- `TARGET_IP` and `TARGET_PORT`
abbrev pub target_ip : List ℕ
target_ip = codes "127.0.0.1"

abbrev pub target_port : ℕ
target_port = 14560

-- `telemetry_system_id`
abbrev pub telemetry_system_id : ℕ
telemetry_system_id = 0

-- What `uv_run` does next: call the timer's callback, or look after the socket.
pub data Iteration : Type 0 where
  timer poll : Iteration

module _ (mav : Mavlink) (uv : Uv) where
  -- The status of the ground channel, the static buffer, and everything outside.
  pub record World : Type 0 where
    pub status : mav.Status
    pub mavlink_ser_buf : List ℕ
    pub io : uv.State

  abbrev pub target_addr : uv.Address
  target_addr = uv.uv_ip4_addr target_ip target_port

  -- `send_req` and the buffer are the same for every send. The result of `uv_udp_send` is not looked
  -- at, and its callback only reports.
  unfoldable pub heartbeat_timer_cb : World → World
  heartbeat_timer_cb w =
      let (mavlink_msg, status') =
        mav.heartbeat_pack_chan telemetry_system_id mav.mav_comp_id_autopilot1 mav.mavlink_comm_0
          (mav.mav_type_generic ∷ mav.mav_autopilot_generic ∷ mav.mav_mode_flag_manual_input_enabled
            ∷ 0 ∷ mav.mav_state_active ∷ [])
          w.status in
      let packet = mav.msg_to_send_buffer mavlink_msg in
      let buffer = packet ++ drop (length packet) w.mavlink_ser_buf in
      record {
        status = status';
        mavlink_ser_buf = buffer;
        io = (uv.uv_udp_send buffer (length packet) target_addr w.io).1;
      }

  unfoldable pub uv_run : List Iteration → World → World
  uv_run [] w = w
  uv_run (timer ∷ is) w = uv_run is (heartbeat_timer_cb w)
  uv_run (poll ∷ is) w = uv_run is (record w { io = uv.uv_io_poll w.mavlink_ser_buf w.io })

  unfoldable pub main : List Iteration → World → World
  main is w =
      let io' = uv.uv_timer_start 0 1000 (uv.uv_timer_init (uv.uv_udp_init w.io)) in
      let w' = uv_run is (record w { io = io' }) in record w' { io = uv.uv_loop_close w'.io }
