-- ===== src/Sitl/Heartbeats.antt =====
-- The simulator sends the heartbeats of the firmware.
use efc.Common.{
  ℕ, ◌≡◌, ap, ◌∙◌, sym, refl, List, [], ◌∷◌, ◌++◌, append_assoc, append-nil, map, pos, Option, none,
  some, take, take-append, length, drop, ◌⊎◌, inl, inr,
}
use efc.App.Telemetry.{Mavlink, Convert, Event, heartbeat_chan, pack_heartbeat}
use efc.App.Telemetry.Order.{packets}
use efc.Sitl.{Uv, Iteration, timer, poll, World, target_addr, heartbeat_timer_cb, uv_run, main}

-- The datagrams that were sent, and the request that libuv holds, until its callback, as a length and
-- where to. A send that is accepted while there is none is sent or held; what is held is sent, with
-- the bytes of the buffer at that time, or stays. Nothing is said of a send with a request that is
-- still held, which libuv does not allow.
pub record IsUv (uv : Uv) : Type 0 where
  pub datagrams : uv.State → List (uv.Address × List ℕ)
  pub request : uv.State → Option (ℕ × uv.Address)
  pub send_accepted :
      (buf : List ℕ) (len : ℕ) (to : uv.Address) (s : uv.State)
      → request s ≡ none
      → (uv.uv_udp_send buf len to s).0 ≡ pos 0
      → ((request (uv.uv_udp_send buf len to s).1 ≡ none)
          × (datagrams (uv.uv_udp_send buf len to s).1 ≡ datagrams s ++ (to, take len buf) ∷ []))
        ⊎ ((request (uv.uv_udp_send buf len to s).1 ≡ some (len, to))
            × (datagrams (uv.uv_udp_send buf len to s).1 ≡ datagrams s))
  pub poll_idle :
      (buf : List ℕ) (s : uv.State)
      → request s ≡ none
      → (request (uv.uv_io_poll buf s) ≡ none) × (datagrams (uv.uv_io_poll buf s) ≡ datagrams s)
  pub poll_held :
      (buf : List ℕ) (len : ℕ) (to : uv.Address) (s : uv.State)
      → request s ≡ some (len, to)
      → ((request (uv.uv_io_poll buf s) ≡ none)
          × (datagrams (uv.uv_io_poll buf s) ≡ datagrams s ++ (to, take len buf) ∷ []))
        ⊎ ((request (uv.uv_io_poll buf s) ≡ some (len, to))
            × (datagrams (uv.uv_io_poll buf s) ≡ datagrams s))
  pub udp_quiet :
      (s : uv.State)
      → (request (uv.uv_udp_init s) ≡ request s) × (datagrams (uv.uv_udp_init s) ≡ datagrams s)
  pub timer_quiet :
      (s : uv.State)
      → (request (uv.uv_timer_init s) ≡ request s) × (datagrams (uv.uv_timer_init s) ≡ datagrams s)
  pub start_quiet :
      (timeout repeat : ℕ) (s : uv.State)
      → (request (uv.uv_timer_start timeout repeat s) ≡ request s)
        × (datagrams (uv.uv_timer_start timeout repeat s) ≡ datagrams s)
  pub close_quiet : (s : uv.State) → datagrams (uv.uv_loop_close s) ≡ datagrams s

-- Every send is accepted.
pub record Sends (uv : Uv) : Type 0 where
  pub sends :
      (buf : List ℕ) (len : ℕ) (to : uv.Address) (s : uv.State)
      → (uv.uv_udp_send buf len to s).0 ≡ pos 0

-- An event of the packer's heartbeat channel for each time that the timer fires.
abbrev pub beats : List Iteration → List Event
beats [] = []
beats (timer ∷ is) = heartbeat_chan ∷ beats is
beats (poll ∷ is) = beats is

module _ (mav : Mavlink) {uv : Uv} (net : IsUv uv) where
  -- Whenever the timer fires, libuv is through with the request.
  abbrev pub SentInTime : List Iteration → World mav uv → Type 0
  SentInTime [] w = Unit {0}
  SentInTime (timer ∷ is) w =
      (net.request w.io ≡ none) × SentInTime is (heartbeat_timer_cb mav uv w)
  SentInTime (poll ∷ is) w = SentInTime is (record w { io = uv.uv_io_poll w.mavlink_ser_buf w.io })

  -- What libuv will send of the buffer.
  abbrev held : Option (ℕ × uv.Address) → List ℕ → List (uv.Address × List ℕ)
  held none buf = []
  held (some (len, to)) buf = (to, take len buf) ∷ []

  -- What was sent and what is held.
  abbrev line : World mav uv → List (uv.Address × List ℕ)
  line w = net.datagrams w.io ++ held (net.request w.io) w.mavlink_ser_buf

  abbrev to_target : List ℕ → uv.Address × List ℕ
  to_target bs = (target_addr mav uv, bs)

  poll-line :
      (w : World mav uv) → line (record w { io = uv.uv_io_poll w.mavlink_ser_buf w.io }) ≡ line w
  poll-line w = go (net.request w.io) refl
    where
      go :
          (r : Option (ℕ × uv.Address))
          → net.request w.io ≡ r
          → line (record w { io = uv.uv_io_poll w.mavlink_ser_buf w.io }) ≡ line w
      go none e =
          let (still, same) = net.poll_idle w.mavlink_ser_buf w.io e in rw (still, same, e) refl
      go (some (len, to)) e = elim (net.poll_held w.mavlink_ser_buf len to w.io e) [
        | inl (done, sent) ↦ rw (done, sent, e, append-nil) refl
        | inr (still, same) ↦ rw (still, same, e) refl
      ]

  send-line :
      (buf : List ℕ) (len : ℕ) (to : uv.Address) (s : uv.State)
      → net.request s ≡ none
      → (uv.uv_udp_send buf len to s).0 ≡ pos 0
      → net.datagrams (uv.uv_udp_send buf len to s).1
          ++ held (net.request (uv.uv_udp_send buf len to s).1) buf
        ≡ net.datagrams s ++ (to, take len buf) ∷ []
  send-line buf len to s e h = elim (net.send_accepted buf len to s e h) [
    | inl (done, sent) ↦ rw (done, sent, append-nil) refl
    | inr (waits, same) ↦ rw (waits, same) refl
  ]

  module _ (fpu : Convert) (reliable : Sends uv) where
    timer-line :
        (w : World mav uv)
        → net.request w.io ≡ none
        → line (heartbeat_timer_cb mav uv w)
          ≡ line w ++ to_target (mav.msg_to_send_buffer (pack_heartbeat mav fpu w.status).0) ∷ []
    unfolding heartbeat_timer_cb pack_heartbeat
    timer-line w e =
        let packet = mav.msg_to_send_buffer (pack_heartbeat mav fpu w.status).0 in
        send-line (packet ++ drop (length packet) w.mavlink_ser_buf) (length packet)
          (target_addr mav uv) w.io e (reliable.sends _ _ _ _)
        ∙ rw (e, append-nil, take-append) refl

    timer-status :
        (w : World mav uv)
        → (heartbeat_timer_cb mav uv w).status ≡ (pack_heartbeat mav fpu w.status).1
    unfolding heartbeat_timer_cb pack_heartbeat
    timer-status w = refl

    run-line :
        (is : List Iteration) (w : World mav uv)
        → SentInTime is w
        → line (uv_run mav uv is w) ≡ line w ++ map to_target (packets mav fpu (beats is) w.status)
    unfolding uv_run
    run-line [] w h = sym (append-nil (line w))
    run-line (poll ∷ is) w h =
        run-line is (record w { io = uv.uv_io_poll w.mavlink_ser_buf w.io }) h
        ∙ ap (λ l. l ++ map to_target (packets mav fpu (beats is) w.status)) (poll-line w)
    run-line (timer ∷ is) w (e, h) =
        let after : mav.Status → List (uv.Address × List ℕ) =
          λ st. map to_target (packets mav fpu (beats is) st) in
        run-line is (heartbeat_timer_cb mav uv w) h
        ∙ ap (λ st. line (heartbeat_timer_cb mav uv w) ++ after st) (timer-status w)
        ∙ ap (λ l. l ++ after (pack_heartbeat mav fpu w.status).1) (timer-line w e)
        ∙ append_assoc (line w) _ _

    -- On a network as IsUv describes it that accepts every datagram, where libuv holds no
    -- request at the start: however the firings of the timer and the looks after the socket
    -- follow each other, if libuv is through with the request whenever the timer fires and at
    -- the end, then the datagrams sent are those from before and then, one for each firing,
    -- the packets that the firmware's packer makes of heartbeats from the same status of the
    -- channel, in their order.
    pub simulator_beats :
        (is : List Iteration) (w : World mav uv)
        → let started : World mav uv = record w {
          io = uv.uv_timer_start 0 1000 (uv.uv_timer_init (uv.uv_udp_init w.io));
        } in
          net.request w.io ≡ none
          → SentInTime is started
          → net.request (uv_run mav uv is started).io ≡ none
          → net.datagrams (main mav uv is w).io
            ≡ net.datagrams w.io
              ++ map (λ bs. (target_addr mav uv, bs)) (packets mav fpu (beats is) w.status)
    unfolding main
    simulator_beats is w fresh h done =
        let started : World mav uv = record w {
          io = uv.uv_timer_start 0 1000 (uv.uv_timer_init (uv.uv_udp_init w.io));
        } in
        let opened = net.udp_quiet w.io in
        let made = net.timer_quiet (uv.uv_udp_init w.io) in
        let runs = net.start_quiet 0 1000 (uv.uv_timer_init (uv.uv_udp_init w.io)) in
        let quiet : line started ≡ net.datagrams w.io =
          rw (runs.0 ∙ made.0 ∙ opened.0 ∙ fresh, runs.1, made.1, opened.1, append-nil) refl in
        net.close_quiet _
        ∙ sym (append-nil _)
        ∙ ap
            (λ r.
              net.datagrams (uv_run mav uv is started).io
              ++ held r (uv_run mav uv is started).mavlink_ser_buf)
            (sym done)
        ∙ run-line is started h
        ∙ ap (λ l. l ++ map to_target (packets mav fpu (beats is) w.status)) quiet
