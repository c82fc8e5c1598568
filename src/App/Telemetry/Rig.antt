-- ===== src/App/Telemetry/Rig.antt =====
-- Pipes in memory of any size, on which the telemetry threads can run.
use efc.Common.{
  ℕ, suc, ap, sym, ◌∙◌, ◌≤◌, ◌+◌, ◌-◌, ◌≡◌, refl, List, [], ◌∷◌, ◌++◌, ℤ, pos, negsuc, take, length,
  arith, leb, le→leb, take-length_le, take-length-take, Bool-cases, inl, inr, true, if◌then◌else◌,
}
use efc.App.Telemetry
use efc.App.Telemetry.{
  Mavlink, Convert, Pipe, IsPipe, Event, imu_chan, baro_chan, heartbeat_chan, other_chan,
  wait_failed, pack_imu, pack_baro, pack_heartbeat, send_packet, pack_event, forward_byte, Round,
  packer, sender, step, run,
}
use efc.App.Telemetry.Whole.{HasRoom}

-- Packets of a sequence number, a kind and the first argument.
abbrev pub mav : Mavlink
mav = record {
  Status = ℕ;
  Message = List ℕ;
  scaled_imu_pack_chan = λ sys comp chan fields st. (st ∷ 26 ∷ take 1 fields, st + 1);
  scaled_pressure_pack_chan = λ sys comp chan fields st. (st ∷ 29 ∷ take 1 fields, st + 1);
  heartbeat_pack_chan = λ sys comp chan fields st. (st ∷ 0 ∷ [], st + 1);
  msg_to_send_buffer = λ m. m;
  mav_comp_id_autopilot1 = 1;
  mavlink_comm_0 = 0;
  mav_type_generic = 0;
  mav_autopilot_generic = 0;
  mav_mode_flag_manual_input_enabled = 64;
  mav_state_active = 4;
}

abbrev pub fpu : Convert
fpu = record { mul = λ a b. a; to_i16 = λ a. a }

-- The bytes in the pipe and on the line.
pub record Wire : Type 0 where
  pub queued : List ℕ
  pub sent : List ℕ

abbrev pub take_byte : List ℕ → List ℕ → ℤ × ℕ × Wire
take_byte [] sent = (negsuc 10, 0, record { queued = []; sent = sent })
take_byte (b ∷ bs) sent = (pos 1, b, record { queued = bs; sent = sent })

-- A write into a pipe of so many bytes takes what fits.
abbrev pub put_bytes : ℕ → List ℕ → Wire → ℤ × Wire
put_bytes size bs s =
    let part = take (size - length s.queued) bs in
    if leb (length s.queued) size
    then (pos (length part), record s { queued = s.queued ++ part })
    else (negsuc 10, s)

abbrev pub pipe_of : ℕ → Pipe
pipe_of size = record {
  State = Wire;
  k_pipe_write = put_bytes size;
  k_pipe_read = λ s. take_byte s.queued s.sent;
  uart_poll_out = λ b s. record s { sent = s.sent ++ b ∷ [] };
}

abbrev pub three_bytes : Pipe
three_bytes = pipe_of 3

pos-injective : (m n : ℕ) → pos m ≡ pos n → m ≡ n
pos-injective m n h = ground (arith, h)

pub put_some :
    (size : ℕ) (bs : List ℕ) (s : Wire) (n : ℕ)
    → (put_bytes size bs s).0 ≡ pos n
    → (put_bytes size bs s).1.queued ≡ s.queued ++ take n bs
put_some size bs s n h = elim (Bool-cases (leb (length s.queued) size)) [
  | inl e ↦ rw e (
      ap (λ l. s.queued ++ l)
        (sym (take-length-take (size - length s.queued) bs)
          ∙ ap (λ k. take k bs) (pos-injective _ _ (rw e at h))))
  | inr e ↦ absurd (ground (arith, h, e))
]

pub put_none :
    (size : ℕ) (bs : List ℕ) (s : Wire) (n : ℕ)
    → (put_bytes size bs s).0 ≡ negsuc n
    → (put_bytes size bs s).1.queued ≡ s.queued
put_none size bs s n h = ground arith

pub put_sent : (size : ℕ) (bs : List ℕ) (s : Wire) → (put_bytes size bs s).1.sent ≡ s.sent
put_sent size bs s = ground arith

pub take_some :
    (queued sent : List ℕ) (n : ℕ)
    → (take_byte queued sent).0 ≡ pos (suc n)
    → queued ≡ (take_byte queued sent).1 ∷ (take_byte queued sent).2.queued
take_some [] sent n h = absurd (ground (arith, h))
take_some (b ∷ bs) sent n h = refl

pub take_zero :
    (queued sent : List ℕ)
    → (take_byte queued sent).0 ≡ pos 0
    → (take_byte queued sent).2.queued ≡ queued
take_zero [] sent h = refl
take_zero (b ∷ bs) sent h = absurd (ground (arith, h))

pub take_none :
    (queued sent : List ℕ) (n : ℕ)
    → (take_byte queued sent).0 ≡ negsuc n
    → (take_byte queued sent).2.queued ≡ queued
take_none [] sent n h = refl
take_none (b ∷ bs) sent n h = absurd (ground (arith, h))

pub take_sent : (queued sent : List ℕ) → (take_byte queued sent).2.sent ≡ sent
take_sent [] sent = refl
take_sent (b ∷ bs) sent = refl

abbrev pub pipe_of_lem : (size : ℕ) → IsPipe (pipe_of size)
pipe_of_lem size = record {
  queued = λ s. s.queued;
  sent = λ s. s.sent;
  write_some = put_some size;
  write_none = put_none size;
  write_sent = put_sent size;
  read_some = λ s n h. take_some s.queued s.sent n h;
  read_zero = λ s h. take_zero s.queued s.sent h;
  read_none = λ s n h. take_none s.queued s.sent n h;
  read_sent = λ s. take_sent s.queued s.sent;
  out_sent = λ b s. refl;
  out_queued = λ b s. refl;
}

pub put_whole :
    (size : ℕ) (bs : List ℕ) (s : Wire)
    → length s.queued + length bs ≤ size
    → (put_bytes size bs s).0 ≡ pos (length bs)
put_whole size bs s h =
    rw (le→leb (length s.queued) size (omega (arith, h)))
      (ap (λ l. pos (length l)) (take-length_le (size - length s.queued) bs (omega (arith, h))))

pub take_waiting :
    (b : ℕ) (bs queued sent : List ℕ) → queued ≡ b ∷ bs → (take_byte queued sent).0 ≡ pos 1
take_waiting b bs queued sent e = rw e refl

abbrev pub room : (size : ℕ) → HasRoom (pipe_of_lem size) size
room size = record {
  write_whole = put_whole size;
  read_waiting = λ b bs s e. take_waiting b bs s.queued s.sent e;
}

abbrev pub large : Telemetry.World mav fpu (pipe_of 1024)
large = record { status = 5; packing = true; wire = record { queued = []; sent = [] } }
