-- ===== src/Ulog/Format/Laws.antt =====
-- How the reader sees a file grow.
use efc.Common.{
  ℕ, zero, suc, ◌+◌, ◌*◌, ◌%◌, ◌/◌, ◌≤◌, ◌<◌, ◌≡◌, ◌≢◌, ◌⊎◌, refl, ◌∙◌, List, [], ◌∷◌, ◌++◌, none,
  some, arith, le→leb, Option-cases, inl, inr, length, length-append, drop, take-append,
  drop-append, take-append_le, drop-append_le, length-drop, append-nil,
}
use efc.Ulog.Format.{Frame, next_frame, read_frames, frames, read_log, frame_bytes}

-- A message at the front of the bytes is read back.
pub next_frame-frame_bytes :
    (f : Frame) (rest : List ℕ)
    → length f.payload < 65536
    → next_frame (frame_bytes f ++ rest) ≡ some (f, rest)
unfolding next_frame
next_frame-frame_bytes f rest h =
    let size : length f.payload % 256 + 256 * (length f.payload / 256 % 256) ≡ length f.payload =
      omega arith in
    rw (
      size,
      le→leb (length f.payload) (length (f.payload ++ rest))
          (omega (arith, length-append f.payload rest)),
      take-append f.payload rest,
      drop-append f.payload rest,
    )

next_frame-shorter :
    (bs rest : List ℕ) (f : Frame) → next_frame bs ≡ some (f, rest) → length rest < length bs
unfolding next_frame
next_frame-shorter (lo ∷ hi ∷ k ∷ bs) rest f e = ground (arith, length-drop (lo + 256 * hi) bs)
next_frame-shorter _ rest f e = cc

-- The reader does not look past a message.
next_frame-append :
    (bs more rest : List ℕ) (f : Frame)
    → next_frame bs ≡ some (f, rest)
    → next_frame (bs ++ more) ≡ some (f, rest ++ more)
unfolding next_frame
next_frame-append (lo ∷ hi ∷ k ∷ bs) more rest f e = ground (
  arith,
  length-append bs more,
  take-append_le (lo + 256 * hi) bs more,
  drop-append_le (lo + 256 * hi) bs more,
)
next_frame-append _ more rest f e = cc

next_frame-cases :
    (bs : List ℕ)
    → (next_frame bs ≡ none) ⊎ ((f : Frame) × (rest : List ℕ) × (next_frame bs ≡ some (f, rest)))
next_frame-cases bs = elim (Option-cases (next_frame bs)) [
  | inl e ↦ inl e
  | inr ((f, rest), e) ↦ inr (f, rest, e)
]

-- More fuel than bytes changes nothing.
read_frames-fuel :
    (n m : ℕ) (bs : List ℕ) → length bs ≤ n → length bs ≤ m → read_frames n bs ≡ read_frames m bs
unfolding read_frames
read_frames-fuel zero zero bs hn hm = refl
read_frames-fuel zero (suc m) [] hn hm = unfold next_frame in refl
read_frames-fuel zero (suc m) (b ∷ bs) hn hm = absurd (omega arith)
read_frames-fuel (suc n) zero [] hn hm = unfold next_frame in refl
read_frames-fuel (suc n) zero (b ∷ bs) hn hm = absurd (omega arith)
read_frames-fuel (suc n) (suc m) bs hn hm = elim (next_frame-cases bs) [
  | inl e ↦ rw (e, read_frames)
  | inr (f, rest, e) ↦ rw (
    e,
    read_frames,
    read_frames-fuel n m rest (omega (arith, next_frame-shorter bs rest f e))
        (omega (arith, next_frame-shorter bs rest f e)),
  )
]

-- One step of the reader.
frames-next :
    (bs rest : List ℕ) (f : Frame)
    → next_frame bs ≡ some (f, rest)
    → frames bs ≡ (f ∷ (frames rest).0, (frames rest).1)
unfolding frames
frames-next [] rest f e = cc
frames-next (b ∷ bs) rest f e = rw (
  e,
  read_frames,
  read_frames-fuel (length bs) (length rest) rest
      (omega (arith, next_frame-shorter (b ∷ bs) rest f e)) (omega arith),
)

-- Bytes in which no message ends are the tail.
pub frames-none : (bs : List ℕ) → next_frame bs ≡ none → frames bs ≡ ([], bs)
unfolding frames
frames-none [] e = refl
frames-none (b ∷ bs) e = rw (e, read_frames)

-- Behind complete messages the reader goes on as if it started there.
frames-append_fuel :
    (n : ℕ) (xs ys : List ℕ)
    → length xs ≤ n
    → (frames xs).1 ≡ []
    → frames (xs ++ ys) ≡ ((frames xs).0 ++ (frames ys).0, (frames ys).1)
frames-append_fuel n [] ys h e = unfold frames in refl
frames-append_fuel zero (x ∷ xs) ys h e = absurd (omega arith)
frames-append_fuel (suc n) (x ∷ xs) ys h e = elim (next_frame-cases (x ∷ xs)) [
  | inl stop ↦ cc (e, frames-none (x ∷ xs) stop)
  | inr (f, rest, step) ↦ ground (
    arith,
    frames-next (x ∷ xs) rest f step,
    frames-next (x ∷ xs ++ ys) (rest ++ ys) f (next_frame-append (x ∷ xs) ys rest f step),
    next_frame-shorter (x ∷ xs) rest f step,
    frames-append_fuel n rest ys,
  )
]

pub frames-append :
    (xs ys : List ℕ)
    → (frames xs).1 ≡ []
    → frames (xs ++ ys) ≡ ((frames xs).0 ++ (frames ys).0, (frames ys).1)
frames-append xs ys = frames-append_fuel (length xs) xs ys (omega arith)

-- A message's own bytes are that message.
pub frames-frame_bytes :
    (f : Frame) → length f.payload < 65536 → frames (frame_bytes f) ≡ (f ∷ [], [])
frames-frame_bytes f h =
    frames-next (frame_bytes f) [] f (rw append-nil at (next_frame-frame_bytes f [] h))
    ∙ (unfold frames in refl)

-- A proper beginning of a message is no message.
pub next_frame-prefix :
    (f : Frame) (p q : List ℕ)
    → length f.payload < 65536
    → p ++ q ≡ frame_bytes f
    → q ≢ []
    → next_frame p ≡ none
next_frame-prefix f p [] h e ne = absurd (ne refl)
next_frame-prefix f p (x ∷ q) h e ne = elim (next_frame-cases p) [
  | inl stop ↦ stop
  | inr (g, rest, step) ↦ ground (
    arith,
    rw e at (next_frame-append p (x ∷ q) rest g step),
    rw append-nil at (next_frame-frame_bytes f [] h),
    length-append rest (x ∷ q),
  )
]

-- Bytes behind complete messages are read as messages of the same log.
pub read_log-append :
    (xs ys : List ℕ) (t : ℕ) (fs : List Frame)
    → read_log xs ≡ some (record { start_us = t; messages = fs; tail = [] })
    → read_log (xs ++ ys)
      ≡ some (record { start_us = t; messages = fs ++ (frames ys).0; tail = (frames ys).1 })
unfolding read_log
read_log-append xs ys t fs h = ground (
  arith,
  length-append xs ys,
  take-append_le 7 xs ys,
  drop-append_le 7 xs ys,
  drop-append_le 8 xs ys,
  drop-append_le 16 xs ys,
  length-drop 7 xs,
  length-drop 8 xs,
  take-append_le 1 (drop 7 xs) ys,
  take-append_le 8 (drop 8 xs) ys,
  frames-append (drop 16 xs) ys,
)
