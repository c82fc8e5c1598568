-- ===== src/App/Telemetry/Whole.antt =====
-- A pipe with room takes a packet whole and gives its bytes one by one.
use efc.Common.{
  ℕ, zero, suc, ◌+◌, ◌≤◌, ◌≡◌, refl, sym, ap, ◌∙◌, List, ◌∷◌, ◌++◌, append_assoc, length,
  length-append, take-length, ℤ, pos, negsuc, drop, arith,
}
use efc.App.Telemetry.{
  Mavlink, Convert, Pipe, IsPipe, is_positive, World, send_packet, forward_byte,
}
use efc.App.Telemetry.Order.{line, forward-idle, forward-out}

-- A pipe with room for that many bytes: what fits is taken whole, and a byte that waits can be read.
pub record HasRoom {io : Pipe} (pipe : IsPipe io) (capacity : ℕ) : Type 0 where
  pub write_whole :
      (bs : List ℕ) (s : io.State)
      → length (pipe.queued s) + length bs ≤ capacity
      → (io.k_pipe_write bs s).0 ≡ pos (length bs)
  pub read_waiting :
      (b : ℕ) (bs : List ℕ) (s : io.State) → pipe.queued s ≡ b ∷ bs → (io.k_pipe_read s).0 ≡ pos 1

module _ (mav : Mavlink) (fpu : Convert) {io : Pipe} (pipe : IsPipe io) {capacity : ℕ}
    (room : HasRoom pipe capacity) where
  abbrev waiting : World mav fpu io → ℕ
  waiting w = length (pipe.queued w.wire)

  abbrev the_line : World mav fpu io → List ℕ
  the_line w = line mav fpu pipe w.wire

  queued_whole :
      (bs : List ℕ) (s : io.State)
      → length (pipe.queued s) + length bs ≤ capacity
      → pipe.queued (io.k_pipe_write bs s).1 ≡ pipe.queued s ++ bs
  queued_whole bs s h =
      pipe.write_some bs s (length bs) (room.write_whole bs s h)
      ∙ ap (λ l. pipe.queued s ++ l) (take-length bs)

  -- A packet that fits is behind the line as a whole.
  pub whole_line :
      (p : mav.Message × mav.Status) (w : World mav fpu io)
      → waiting w + length (mav.msg_to_send_buffer p.0) ≤ capacity
      → the_line (send_packet mav fpu io p w) ≡ the_line w ++ mav.msg_to_send_buffer p.0
  unfolding send_packet
  whole_line p w h =
      rw
        (
          pipe.write_sent (mav.msg_to_send_buffer p.0) w.wire,
          queued_whole (mav.msg_to_send_buffer p.0) w.wire h,
          append_assoc,
        )
        refl

  pub whole_waiting :
      (p : mav.Message × mav.Status) (w : World mav fpu io)
      → waiting w + length (mav.msg_to_send_buffer p.0) ≤ capacity
      → waiting (send_packet mav fpu io p w) ≡ waiting w + length (mav.msg_to_send_buffer p.0)
  unfolding send_packet
  whole_waiting p w h =
      ap length (queued_whole (mav.msg_to_send_buffer p.0) w.wire h)
      ∙ length-append (pipe.queued w.wire) (mav.msg_to_send_buffer p.0)

  pub forward_waiting : (w : World mav fpu io) → waiting (forward_byte mav fpu io w) ≤ waiting w
  forward_waiting w = go (io.k_pipe_read w.wire).0 refl
    where
      go : (r : ℤ) → (io.k_pipe_read w.wire).0 ≡ r → waiting (forward_byte mav fpu io w) ≤ waiting w
      go (pos zero) e =
          rw (forward-idle mav fpu pipe w (ap is_positive e), pipe.read_zero w.wire e) (omega arith)
      go (pos (suc n)) e =
          let before = ap length (pipe.read_some w.wire n e) in
          rw
            (
              forward-out mav fpu pipe w (ap is_positive e),
              pipe.out_queued (io.k_pipe_read w.wire).1 (io.k_pipe_read w.wire).2,
            )
            (omega (arith, before))
      go (negsuc n) e =
          rw (forward-idle mav fpu pipe w (ap is_positive e), pipe.read_none w.wire n e)
            (omega arith)

  pub forward_takes :
      (w : World mav fpu io) (b : ℕ) (bs : List ℕ)
      → pipe.queued w.wire ≡ b ∷ bs
      → pipe.queued (forward_byte mav fpu io w).wire ≡ bs
  forward_takes w b bs e =
      let one = room.read_waiting b bs w.wire e in
      rw
        (
          forward-out mav fpu pipe w (ap is_positive one),
          pipe.out_queued (io.k_pipe_read w.wire).1 (io.k_pipe_read w.wire).2,
        )
        (ap (λ l. drop 1 l) (sym (pipe.read_some w.wire 0 one) ∙ e))
