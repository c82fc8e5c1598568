-- ===== src/Sitl/Examples.antt =====
-- A network in memory, and the simulator on it.
use efc.Common.{
  Option, none, some, take, inl, inr, ℕ, ◌+◌, ◌≡◌, refl, List, [], ◌∷◌, ◌++◌, map, pos,
}
use efc.App.Telemetry.{Mavlink, Convert, heartbeat_chan, pack_heartbeat}
use efc.App.Telemetry.Order.{packets}
use efc.Sitl
use efc.Sitl.{Uv, Iteration, timer, poll, heartbeat_timer_cb, uv_run, target_addr, main}
use efc.Sitl.Heartbeats.{IsUv, Sends, SentInTime, beats, simulator_beats}

abbrev mav : Mavlink
mav = record {
  Status = ℕ;
  Message = List ℕ;
  scaled_imu_pack_chan = λ sys comp chan fields st. (st ∷ 26 ∷ [], st + 1);
  scaled_pressure_pack_chan = λ sys comp chan fields st. (st ∷ 29 ∷ [], st + 1);
  heartbeat_pack_chan = λ sys comp chan fields st. (st ∷ sys ∷ comp ∷ chan ∷ fields, st + 1);
  msg_to_send_buffer = λ m. m;
  mav_comp_id_autopilot1 = 1;
  mavlink_comm_0 = 0;
  mav_type_generic = 0;
  mav_autopilot_generic = 0;
  mav_mode_flag_manual_input_enabled = 64;
  mav_state_active = 4;
}

abbrev fpu : Convert
fpu = record { mul = λ a b. a; to_i16 = λ a. a }

-- A socket whose sends wait until the loop looks after it.
record Net : Type 0 where
  sent : List (ℕ × List ℕ)
  waits : Option (ℕ × ℕ)

abbrev flush : List ℕ → Option (ℕ × ℕ) → Net → Net
flush buf none s = s
flush buf (some (len, to)) s = record { sent = s.sent ++ (to, take len buf) ∷ []; waits = none }

abbrev uv : Uv
uv = record {
  State = Net;
  Address = ℕ;
  uv_ip4_addr = λ ip port. port;
  uv_udp_init = λ s. s;
  uv_timer_init = λ s. s;
  uv_timer_start = λ timeout repeat s. s;
  uv_udp_send = λ buf len to s. (pos 0, record s { waits = some (len, to) });
  uv_io_poll = λ buf s. flush buf s.waits s;
  uv_loop_close = λ s. s;
}

flush-idle :
    (buf : List ℕ) (r : Option (ℕ × ℕ)) (s : Net)
    → r ≡ none
    → s.waits ≡ none
    → ((flush buf r s).waits ≡ none) × ((flush buf r s).sent ≡ s.sent)
flush-idle buf r s e w = rw e (w, refl)

flush-held :
    (buf : List ℕ) (r : Option (ℕ × ℕ)) (len to : ℕ) (s : Net)
    → r ≡ some (len, to)
    → ((flush buf r s).waits ≡ none) × ((flush buf r s).sent ≡ s.sent ++ (to, take len buf) ∷ [])
flush-held buf r len to s e = rw e (refl, refl)

abbrev net : IsUv uv
net = record {
  datagrams = λ s. s.sent;
  request = λ s. s.waits;
  send_accepted = λ buf len to s e h. inr (refl, refl);
  poll_idle = λ buf s e. flush-idle buf s.waits s e e;
  poll_held = λ buf len to s e. inl (flush-held buf s.waits len to s e);
  udp_quiet = λ s. (refl, refl);
  timer_quiet = λ s. (refl, refl);
  start_quiet = λ timeout repeat s. (refl, refl);
  close_quiet = λ s. refl;
}

abbrev reliable : Sends uv
reliable = record { sends = λ buf len to s. refl }

abbrev begin : Sitl.World mav uv
begin = record { status = 7; mavlink_ser_buf = 0 ∷ 0 ∷ []; io = record { sent = []; waits = none } }

abbrev seconds : List Iteration
seconds = timer ∷ poll ∷ timer ∷ poll ∷ poll ∷ timer ∷ poll ∷ []

in_time : SentInTime mav net seconds begin
unfolding heartbeat_timer_cb
in_time = (refl, (refl, (refl, tt)))

nothing_held : net.request (uv_run mav uv seconds begin).io ≡ none
unfolding uv_run heartbeat_timer_cb
nothing_held = refl

simulator_beats_example :
    (main mav uv seconds begin).io.sent
    ≡ map (λ bs. (target_addr mav uv, bs)) (packets mav fpu (beats seconds) 7)
simulator_beats_example =
    simulator_beats mav net fpu reliable seconds begin refl in_time nothing_held

-- Two beats before the loop looks after the socket: the first is overwritten.
hurried :
    (uv_run mav uv (timer ∷ timer ∷ poll ∷ []) begin).io.sent
    ≡ map (λ bs. (target_addr mav uv, bs)) (packets mav fpu (heartbeat_chan ∷ []) 8)
unfolding uv_run heartbeat_timer_cb pack_heartbeat
hurried = refl
