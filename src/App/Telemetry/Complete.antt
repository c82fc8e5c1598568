-- ===== src/App/Telemetry/Complete.antt =====
-- With room for all packets in the pipe, and enough rounds of the sender, the UART sends every byte.
use mathlib.Core.Path.{subst}
use efc.Common.{
  ℕ, zero, suc, ◌+◌, ◌≤◌, ◌≡◌, refl, sym, ap, ◌∙◌, List, [], ◌∷◌, ◌++◌, append_assoc, append-nil,
  length, length-append, true, false, arith,
}
use efc.App.Telemetry.{
  Mavlink, Convert, Pipe, IsPipe, imu_chan, baro_chan, heartbeat_chan, other_chan, wait_failed,
  pack_imu, pack_baro, pack_heartbeat, World, send_packet, pack_event, forward_byte, Round, packer,
  sender, step, run,
}
use efc.App.Telemetry.Order.{
  events, packets, line, forward-line, forward-same, step-idle, step-active, idle,
}
use efc.App.Telemetry.Whole.{HasRoom, whole_line, whole_waiting, forward_waiting, forward_takes}

-- All packets, one after the other.
abbrev pub bytes : List (List ℕ) → List ℕ
bytes [] = []
bytes (p ∷ ps) = p ++ bytes ps

abbrev pub senders : ℕ → List Round
senders zero = []
senders (suc n) = sender ∷ senders n

module _ (mav : Mavlink) (fpu : Convert) {io : Pipe} (pipe : IsPipe io) {capacity : ℕ}
    (room : HasRoom pipe capacity) where
  abbrev waiting : World mav fpu io → ℕ
  waiting w = length (pipe.queued w.wire)

  abbrev the_line : World mav fpu io → List ℕ
  the_line w = line mav fpu pipe w.wire

  -- The packets are behind the line as they are, and nothing else waits in the pipe.
  record Complete (ps : List (List ℕ)) (w w' : World mav fpu io) : Type 0 where
    behind : the_line w' ≡ the_line w ++ bytes ps
    waits : waiting w' ≤ waiting w + length (bytes ps)

  emit_whole :
      (p : mav.Message × mav.Status) (ps : List (List ℕ)) (w w' : World mav fpu io)
      → waiting w + length (bytes (mav.msg_to_send_buffer p.0 ∷ ps)) ≤ capacity
      → (waiting (send_packet mav fpu io p w) + length (bytes ps) ≤ capacity
          → Complete ps (send_packet mav fpu io p w) w')
      → Complete (mav.msg_to_send_buffer p.0 ∷ ps) w w'
  emit_whole p ps w w' h rest =
      let buffer = mav.msg_to_send_buffer p.0 in
      let sum = length-append buffer (bytes ps) in
      let fits : waiting w + length buffer ≤ capacity = omega (arith, sum) in
      let now = whole_waiting mav fpu pipe room p w fits in
      let after = rest (omega (arith, sum, now)) in
      record {
        behind =
            after.behind
            ∙ ap (λ l. l ++ bytes ps) (whole_line mav fpu pipe room p w fits)
            ∙ append_assoc (the_line w) buffer (bytes ps);
        waits = let h' = after.waits in omega (arith, h', sum, now);
      }

  pass_whole :
      (ps : List (List ℕ)) (w v w' : World mav fpu io)
      → the_line v ≡ the_line w
      → waiting v ≤ waiting w
      → Complete ps v w'
      → Complete ps w w'
  pass_whole ps w v w' e le c = record {
    behind = c.behind ∙ ap (λ l. l ++ bytes ps) e;
    waits = let h = c.waits in omega (arith, h, le);
  }

  idle_waiting :
      (rs : List Round) (w : World mav fpu io)
      → w.packing ≡ false
      → waiting (run mav fpu io rs w) ≤ waiting w
  unfolding run
  idle_waiting [] w h = omega arith
  idle_waiting (sender ∷ rs) w h =
      unfold step in
      let rest =
        idle_waiting rs (forward_byte mav fpu io w) ((forward-same mav fpu pipe w).1 ∙ h) in
      let now = forward_waiting mav fpu pipe room w in omega (arith, rest, now)
  idle_waiting (packer e ∷ rs) w h =
      subst (λ v. waiting (run mav fpu io rs v) ≤ waiting w) (sym (step-idle mav fpu pipe e w h))
        (idle_waiting rs w h)

  complete :
      (rs : List Round) (w : World mav fpu io)
      → w.packing ≡ true
      → waiting w + length (bytes (packets mav fpu (events rs) w.status)) ≤ capacity
      → Complete (packets mav fpu (events rs) w.status) w (run mav fpu io rs w)
  unfolding run
  complete [] w h fits = record { behind = sym (append-nil (the_line w)); waits = omega arith }
  complete (sender ∷ rs) w h fits =
      unfold step in
      let same = forward-same mav fpu pipe w in
      let less = forward_waiting mav fpu pipe room w in
      pass_whole _ w (forward_byte mav fpu io w) _ (forward-line mav fpu pipe w) less (
        rw same.0 at (
          complete rs (forward_byte mav fpu io w) (same.1 ∙ h)
            (rw same.0 (omega (arith, less, fits)))))
  complete (packer other_chan ∷ rs) w h fits =
      rw (step-active mav fpu pipe other_chan w h) (unfold pack_event in complete rs w h fits)
  complete (packer wait_failed ∷ rs) w h fits = rw (step-active mav fpu pipe wait_failed w h) (
      unfold pack_event in
      record {
        behind =
            idle mav fpu pipe rs (record w { packing = false }) refl
            ∙ sym (append-nil (the_line w));
        waits = let le = idle_waiting rs (record w { packing = false }) refl in omega (arith, le);
      })
  complete (packer heartbeat_chan ∷ rs) w h fits =
      rw (step-active mav fpu pipe heartbeat_chan w h) (
        unfold pack_event in
        emit_whole (pack_heartbeat mav fpu w.status) _ w _ fits
          (λ f. complete rs (send_packet mav fpu io (pack_heartbeat mav fpu w.status) w) h f))
  complete (packer (imu_chan msg) ∷ rs) w h fits =
      rw (step-active mav fpu pipe (imu_chan msg) w h) (
        unfold pack_event in
        emit_whole (pack_imu mav fpu msg w.status) _ w _ fits
          (λ f. complete rs (send_packet mav fpu io (pack_imu mav fpu msg w.status) w) h f))
  complete (packer (baro_chan msg) ∷ rs) w h fits =
      rw (step-active mav fpu pipe (baro_chan msg) w h) (
        unfold pack_event in
        emit_whole (pack_baro mav fpu msg w.status) _ w _ fits
          (λ f. complete rs (send_packet mav fpu io (pack_baro mav fpu msg w.status) w) h f))

  no_bytes : (bs : List ℕ) → length bs ≤ 0 → bs ≡ []
  no_bytes [] h = refl
  no_bytes (b ∷ bs) h = absurd (omega (arith, h))

  -- As many rounds of the sender as bytes wait empty the pipe.
  drained :
      (queue : List ℕ) (n : ℕ) (w : World mav fpu io)
      → pipe.queued w.wire ≡ queue
      → length queue ≤ n
      → pipe.queued (run mav fpu io (senders n) w).wire ≡ []
  unfolding run step
  drained [] zero w e h = e
  drained [] (suc n) w e h =
      drained [] n (forward_byte mav fpu io w)
        (no_bytes _ (
          let le = forward_waiting mav fpu pipe room w in
          let none_waits = ap length e in omega (arith, le, none_waits)))
        (omega arith)
  drained (b ∷ bs) zero w e h = absurd (omega (arith, h))
  drained (b ∷ bs) (suc n) w e h =
      drained bs n (forward_byte mav fpu io w) (forward_takes mav fpu pipe room w b bs e)
        (omega (arith, h))

  senders_line :
      (n : ℕ) (w : World mav fpu io) → the_line (run mav fpu io (senders n) w) ≡ the_line w
  unfolding run step
  senders_line zero w = refl
  senders_line (suc n) w = senders_line n (forward_byte mav fpu io w) ∙ forward-line mav fpu pipe w

  run-append :
      (rs qs : List Round) (w : World mav fpu io)
      → run mav fpu io (rs ++ qs) w ≡ run mav fpu io qs (run mav fpu io rs w)
  unfolding run
  run-append [] qs w = refl
  run-append (r ∷ rs) qs w = run-append rs qs (step mav fpu io r w)

  -- With a pipe as IsPipe and HasRoom describe it, whose room is enough for what waits and all
  -- packets of the events: however the rounds of the packer and the sender are interleaved,
  -- while the packer runs at the start, if as many rounds of the sender follow as there are
  -- bytes, the UART has sent what waited and then every packet before a failed wait, whole and
  -- in order.
  pub all_sent :
      (rs : List Round) (n : ℕ) (w : World mav fpu io)
      → w.packing ≡ true
      → length (pipe.queued w.wire) + length (bytes (packets mav fpu (events rs) w.status))
        ≤ capacity
      → length (pipe.queued w.wire) + length (bytes (packets mav fpu (events rs) w.status)) ≤ n
      → pipe.sent (run mav fpu io (rs ++ senders n) w).wire
        ≡ pipe.sent w.wire ++ pipe.queued w.wire ++ bytes (packets mav fpu (events rs) w.status)
  all_sent rs n w h fits enough =
      let w' = run mav fpu io rs w in
      let done = complete rs w h fits in
      let waits = done.waits in
      let empty = drained (pipe.queued w'.wire) n w' refl (omega (arith, waits, enough)) in
      rw (run-append rs (senders n) w) (
        sym (append-nil (pipe.sent (run mav fpu io (senders n) w').wire))
        ∙ ap (λ q. pipe.sent (run mav fpu io (senders n) w').wire ++ q) (sym empty)
        ∙ senders_line n w'
        ∙ done.behind)
