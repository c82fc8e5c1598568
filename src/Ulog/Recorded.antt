-- ===== src/Ulog/Recorded.antt =====
-- What a reader of the log file finds after an operation that adds a message.
use efc.Common.{
  ℕ, ◌%◌, ◌^◌, ◌<◌, ◌≡◌, ap, ◌∙◌, List, [], ◌∷◌, ◌++◌, append-nil, map-append, arith, some, length,
  map,
}
use efc.Common.Exec.{Result, ok, err}
use efc.Ulog.Platform.{Platform, IsFile}
use efc.Ulog.Types.{ErrorType, filesystem_error, Inst}
use efc.Ulog.Format.{read_log, frame_bytes}
use efc.Ulog.Format.Laws.{frames-frame_bytes, frames-none, next_frame-prefix, read_log-append}
use efc.Ulog.Message.{Message, encode, Fits}
use efc.Ulog.Write.{message_header}
use efc.Ulog.Outcome.{Added, whole, part, IsRefusal, IsSame}

-- A header with the right size and the payload behind it are the message.
pub header-frame :
    (kind size : ℕ) (payload : List ℕ)
    → size ≡ length payload
    → size < 2 ^ 16
    → message_header kind size ++ payload ≡ frame_bytes (record { kind = kind; payload = payload })
header-frame kind size payload e h = let fits : size % 2 ^ 16 ≡ size = omega arith in rw (fits, e)

module _ {os : Platform} (disk : IsFile os) where
  -- The file of `l` is a log that was started at `t` and holds the messages `ms`, none unfinished.
  abbrev pub Holds : Inst os → ℕ → List Message → Type 0
  Holds l t ms =
      read_log (disk.written l.file)
      ≡ some (record { start_us = t; messages = map encode ms; tail = [] })

  -- After an operation that adds `m`: it returned success and `m` is the last message of the log;
  -- or it returned ULOG_FILESYSTEM_ERROR, and the log has its old messages, then `m` or a beginning
  -- of it. Phase and next message id are as they were.
  pub data Recorded (l : Inst os) (t : ℕ) (ms : List Message) (m : Message)
      (out : Result ErrorType Unit × Inst os) : Type 0 where
    saved :
        out.0 ≡ ok tt → Holds out.1 t (ms ++ m ∷ []) → IsSame disk l out.1 → Recorded l t ms m out
    saved_with_error :
        out.0 ≡ err filesystem_error
        → Holds out.1 t (ms ++ m ∷ [])
        → IsSame disk l out.1
        → Recorded l t ms m out
    cut :
        (tail rest : List ℕ)
        → out.0 ≡ err filesystem_error
        → tail ++ rest ≡ frame_bytes (encode m)
        → read_log (disk.written out.1.file)
          ≡ some (record { start_us = t; messages = map encode ms; tail = tail })
        → IsSame disk l out.1
        → Recorded l t ms m out

  grown :
      (l l' : Inst os) (t : ℕ) (ms : List Message) (m : Message)
      → Fits m
      → Holds l t ms
      → disk.written l'.file ≡ disk.written l.file ++ frame_bytes (encode m)
      → Holds l' t (ms ++ m ∷ [])
  grown l l' t ms m fits h e = rw (
    e,
    read_log-append (disk.written l.file) (frame_bytes (encode m)) t (map encode ms) h,
    frames-frame_bytes (encode m) fits,
    map-append,
  )

  pub Added-Recorded :
      (l : Inst os) (t : ℕ) (ms : List Message) (m : Message)
      {out : Result ErrorType Unit × Inst os}
      → Fits m
      → Holds l t ms
      → Added disk (IsRefusal disk) l (frame_bytes (encode m)) out
      → Recorded l t ms m out
  Added-Recorded l t ms m {out} fits h (whole r e s) = saved r (grown l out.1 t ms m fits h e) s
  Added-Recorded l t ms m {out} fits h (part x p [] r b c e s) =
      saved_with_error (r ∙ ap err b) (grown l out.1 t ms m fits h (rw (e, ← c, append-nil))) s
  Added-Recorded l t ms m fits h (part x p (y ∷ q) r b c e s) =
      cut p (y ∷ q) (r ∙ ap err b) c
        (rw (
          e,
          read_log-append (disk.written l.file) p t (map encode ms) h,
          frames-none p (next_frame-prefix (encode m) p (y ∷ q) fits c (λ x. cc)),
          append-nil,
        ))
        s
