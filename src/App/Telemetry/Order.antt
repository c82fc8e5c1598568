-- ===== src/App/Telemetry/Order.antt =====
-- The UART sends the packets in their order, whatever the order of the threads' rounds.
use efc.Common.{
  ℕ, zero, suc, ◌≡◌, refl, sym, ap, ◌∙◌, List, [], ◌∷◌, ◌++◌, append_assoc, append-nil, take-drop,
  true, false, ℤ, pos, negsuc, take, drop, arith,
}
use efc.App.Telemetry.{
  Mavlink, Convert, Pipe, IsPipe, Event, imu_chan, baro_chan, heartbeat_chan, other_chan,
  wait_failed, is_positive, pack_imu, pack_baro, pack_heartbeat, World, send_packet, pack_event,
  forward_byte, Round, packer, sender, step, run,
}

-- What the pipe took of each packet: a beginning of it, or nothing.
pub data Taken : List (List ℕ) → List ℕ → Type 0 where
  none_left : Taken [] []
  took :
      (part rest : List ℕ) {packets : List (List ℕ)} {stream : List ℕ}
      → Taken packets stream
      → Taken ((part ++ rest) ∷ packets) (part ++ stream)

-- The packer's events among the rounds.
abbrev pub events : List Round → List Event
events [] = []
events (packer e ∷ rs) = e ∷ events rs
events (sender ∷ rs) = events rs

module _ (mav : Mavlink) (fpu : Convert) where
  -- The packets of a sequence of events, up to a failed wait.
  abbrev pub packets : List Event → mav.Status → List (List ℕ)
  packets [] st = []
  packets (imu_chan msg ∷ es) st =
      let (m, st') = pack_imu mav fpu msg st in mav.msg_to_send_buffer m ∷ packets es st'
  packets (baro_chan msg ∷ es) st =
      let (m, st') = pack_baro mav fpu msg st in mav.msg_to_send_buffer m ∷ packets es st'
  packets (heartbeat_chan ∷ es) st =
      let (m, st') = pack_heartbeat mav fpu st in mav.msg_to_send_buffer m ∷ packets es st'
  packets (other_chan ∷ es) st = packets es st
  packets (wait_failed ∷ es) st = []

  module _ {io : Pipe} (pipe : IsPipe io) where
    -- All that went into the pipe, as far as it has not been lost: what was sent, then what waits.
    abbrev pub line : io.State → List ℕ
    line s = pipe.sent s ++ pipe.queued s

    -- A write puts a beginning of the packet behind the line.
    record Put (s : io.State) (bs : List ℕ) : Type 0 where
      part : List ℕ
      rest : List ℕ
      parts : part ++ rest ≡ bs
      behind : line (io.k_pipe_write bs s).1 ≡ line s ++ part

    put : (s : io.State) (bs : List ℕ) → Put s bs
    put s bs = go (io.k_pipe_write bs s).0 refl
      where
        go : (r : ℤ) → (io.k_pipe_write bs s).0 ≡ r → Put s bs
        go (pos n) e = record {
          part = take n bs;
          rest = drop n bs;
          parts = take-drop n bs;
          behind = rw (pipe.write_sent bs s, pipe.write_some bs s n e, append_assoc) refl;
        }
        go (negsuc n) e = record {
          part = [];
          rest = bs;
          parts = refl;
          behind = rw (pipe.write_sent bs s, pipe.write_none bs s n e, append-nil) refl;
        }

    pub forward-idle :
        (w : World mav fpu io)
        → is_positive (io.k_pipe_read w.wire).0 ≡ false
        → (forward_byte mav fpu io w).wire ≡ (io.k_pipe_read w.wire).2
    unfolding forward_byte
    forward-idle w h = ground arith

    pub forward-out :
        (w : World mav fpu io)
        → is_positive (io.k_pipe_read w.wire).0 ≡ true
        → (forward_byte mav fpu io w).wire
          ≡ io.uart_poll_out (io.k_pipe_read w.wire).1 (io.k_pipe_read w.wire).2
    unfolding forward_byte
    forward-out w h = ground arith

    -- A round of the sender moves the line on, and changes nothing else.
    pub forward-line : (w : World mav fpu io) → line (forward_byte mav fpu io w).wire ≡ line w.wire
    forward-line w = go (io.k_pipe_read w.wire).0 refl
      where
        go :
            (r : ℤ)
            → (io.k_pipe_read w.wire).0 ≡ r
            → line (forward_byte mav fpu io w).wire ≡ line w.wire
        go (pos zero) e =
            rw (forward-idle w (ap is_positive e), pipe.read_sent w.wire, pipe.read_zero w.wire e)
              refl
        go (pos (suc n)) e =
            rw
              (
                forward-out w (ap is_positive e),
                pipe.out_sent (io.k_pipe_read w.wire).1 (io.k_pipe_read w.wire).2,
                pipe.out_queued (io.k_pipe_read w.wire).1 (io.k_pipe_read w.wire).2,
                pipe.read_sent w.wire,
                pipe.read_some w.wire n e,
                append_assoc,
              )
              refl
        go (negsuc n) e =
            rw (forward-idle w (ap is_positive e), pipe.read_sent w.wire, pipe.read_none w.wire n e)
              refl

    pub forward-same :
        (w : World mav fpu io)
        → ((forward_byte mav fpu io w).status ≡ w.status)
          × ((forward_byte mav fpu io w).packing ≡ w.packing)
    unfolding forward_byte
    forward-same w = ground arith

    pub step-idle :
        (e : Event) (w : World mav fpu io) → w.packing ≡ false → step mav fpu io (packer e) w ≡ w
    unfolding step
    step-idle e w h = ground arith

    pub step-active :
        (e : Event) (w : World mav fpu io)
        → w.packing ≡ true
        → step mav fpu io (packer e) w ≡ pack_event mav fpu io e w
    unfolding step
    step-active e w h = ground arith

    -- When the packer has returned, the line stays.
    pub idle :
        (rs : List Round) (w : World mav fpu io)
        → w.packing ≡ false
        → line (run mav fpu io rs w).wire ≡ line w.wire
    unfolding run
    idle [] w h = refl
    idle (sender ∷ rs) w h =
        unfold step in idle rs (forward_byte mav fpu io w) ((forward-same w).1 ∙ h) ∙ forward-line w
    idle (packer e ∷ rs) w h =
        ap (λ v. line (run mav fpu io rs v).wire) (step-idle e w h) ∙ idle rs w h

    -- From `w` to `w'` a beginning of each of the packets was put behind the line, in their order.
    pub record Delivered (ps : List (List ℕ)) (w w' : World mav fpu io) : Type 0 where
      pub stream : List ℕ
      pub taken : Taken ps stream
      pub behind : line w'.wire ≡ line w.wire ++ stream

    emit :
        (p : mav.Message × mav.Status) (ps : List (List ℕ)) (w w' : World mav fpu io)
        → Delivered ps (send_packet mav fpu io p w) w'
        → Delivered (mav.msg_to_send_buffer p.0 ∷ ps) w w'
    unfolding send_packet
    emit p ps w w' d =
        let first = put w.wire (mav.msg_to_send_buffer p.0) in
        record {
          stream = first.part ++ d.stream;
          taken = rw first.parts at (took first.part first.rest d.taken);
          behind =
              d.behind
              ∙ ap (λ l. l ++ d.stream) first.behind
              ∙ append_assoc (line w.wire) first.part d.stream;
        }

    pass :
        (ps : List (List ℕ)) (w v w' : World mav fpu io)
        → line v.wire ≡ line w.wire
        → Delivered ps v w'
        → Delivered ps w w'
    pass ps w v w' e d = record {
      stream = d.stream;
      taken = d.taken;
      behind = d.behind ∙ ap (λ l. l ++ d.stream) e;
    }

    -- However the rounds of the packer and the sender are interleaved, while the packer runs
    -- at the start, and whatever a pipe as IsPipe describes it accepts: what the UART has
    -- sent and what waits in the pipe are, one after the other, what they were before the
    -- rounds, then a beginning of each packet of the packer's events before a failed wait, in
    -- their order.
    pub delivered :
        (rs : List Round) (w : World mav fpu io)
        → w.packing ≡ true
        → Delivered (packets (events rs) w.status) w (run mav fpu io rs w)
    unfolding run
    delivered [] w h = record { stream = []; taken = none_left; behind = rw append-nil refl }
    delivered (sender ∷ rs) w h =
        unfold step in
        pass _ w (forward_byte mav fpu io w) _ (forward-line w) (
          rw (forward-same w).0 at
            (delivered rs (forward_byte mav fpu io w) ((forward-same w).1 ∙ h)))
    delivered (packer other_chan ∷ rs) w h =
        rw (step-active other_chan w h) (unfold pack_event in delivered rs w h)
    delivered (packer wait_failed ∷ rs) w h = rw (step-active wait_failed w h) (
        unfold pack_event in
        record {
          stream = [];
          taken = none_left;
          behind = idle rs (record w { packing = false }) refl ∙ sym (append-nil (line w.wire));
        })
    delivered (packer heartbeat_chan ∷ rs) w h = rw (step-active heartbeat_chan w h) (
        unfold pack_event in
        emit (pack_heartbeat mav fpu w.status) _ w _
          (delivered rs (send_packet mav fpu io (pack_heartbeat mav fpu w.status) w) h))
    delivered (packer (imu_chan msg) ∷ rs) w h = rw (step-active (imu_chan msg) w h) (
        unfold pack_event in
        emit (pack_imu mav fpu msg w.status) _ w _
          (delivered rs (send_packet mav fpu io (pack_imu mav fpu msg w.status) w) h))
    delivered (packer (baro_chan msg) ∷ rs) w h = rw (step-active (baro_chan msg) w h) (
        unfold pack_event in
        emit (pack_baro mav fpu msg w.status) _ w _
          (delivered rs (send_packet mav fpu io (pack_baro mav fpu msg w.status) w) h))
