-- ===== src/Ulog/Api/Closing.antt =====
-- How a log is synchronised and closed: `ULOG_Sync` and `ULOG_Close`.
use efc.Common.{ℕ, ◌≡◌, ◌≢◌, refl, List, [], ◌∷◌, ◌++◌, arith, inl, inr, ◌⊎◌}
use efc.Common.Exec.{Result, ok, err, Exec, ◌>>◌, or_return, >>=-ok, >>=-err}
use efc.Ulog.Platform.{Platform, IsFile, NeverShort}
use efc.Ulog.Types.{ErrorType, filesystem_error, wrong_phase, phase_none, phase_data, Inst, log}
use efc.Ulog.Format.{frame_bytes}
use efc.Ulog.Message.{Message, synchronized, encode}
use efc.Ulog.Write.{message_header, try_write, write_sync}
use efc.Ulog.Outcome.{
  Added, IsCode, IsSame, IsSame-trans, try_write-Added, >>-Added, or_return-Added,
}
use efc.Ulog.Recorded.{Holds, Recorded, saved, saved_with_error, cut, Added-Recorded}
use efc.Ulog.Api.{flush, close_file, set_phase, sync, close}
use efc.Ulog.Api.Messages.{require_phase-pass}

module _ {os : Platform} (disk : IsFile os) (full : NeverShort os) where
  sync-Added :
      (l : Inst os)
      → Added disk (IsCode disk) l (frame_bytes (encode synchronized)) (write_sync os l)
  unfolding write_sync encode
  sync-Added l =
      >>-Added disk (try_write os (message_header b'S' 8)) _ (try_write-Added disk full l _)
        λ l'. try_write-Added disk full l' _

  flush-cases : (l : Inst os) → ((flush os l).0 ≡ ok tt) ⊎ ((flush os l).0 ≡ err filesystem_error)
  unfolding flush
  flush-cases l = ground arith

  flush-Holds :
      (l : Inst os) (t : ℕ) (ms : List Message) → Holds disk l t ms → Holds disk (flush os l).1 t ms
  unfolding flush
  flush-Holds l t ms h = rw disk.synced h

  flush-IsSame : (l : Inst os) → IsSame disk l (flush os l).1
  unfolding flush
  flush-IsSame l = record { phase = refl; next_msg_id = refl; clock = disk.sync_forward l.file }

  -- From a complete log in the data phase, on a file system as IsFile and NeverShort describe
  -- it: ULOG_Sync adds the synchronisation message, or it returns ULOG_FILESYSTEM_ERROR with
  -- the old messages and that message or a beginning of it in the file; phase and next message
  -- id stay.
  pub sync_lem :
      (l : Inst os) (t : ℕ) (ms : List Message)
      → l.phase ≡ phase_data
      → Holds disk l t ms
      → Recorded disk l t ms synchronized (sync os log l)
  unfolding sync
  sync_lem l t ms p h = rw (require_phase-pass phase_data l _ p) (
      go (
        Added-Recorded disk l t ms synchronized (unfold encode in omega arith) h
          (or_return-Added disk (write_sync os) (sync-Added l))))
    where
      l' : Inst os
      l' = (or_return (write_sync os) filesystem_error l).1

      go :
          Recorded disk l t ms synchronized (or_return (write_sync os) filesystem_error l)
          → Recorded disk l t ms synchronized
              ((or_return (write_sync os) filesystem_error >> flush os) l)
      go (saved r e s) =
          rw (>>=-ok (or_return (write_sync os) filesystem_error) (λ _. flush os) l r)
            (elim (flush-cases l') [
              | inl done ↦
                  saved done (flush-Holds l' t (ms ++ synchronized ∷ []) e)
                    (IsSame-trans disk s (flush-IsSame l'))
              | inr failed ↦
                  saved_with_error failed (flush-Holds l' t (ms ++ synchronized ∷ []) e)
                    (IsSame-trans disk s (flush-IsSame l'))
            ])
      go (saved_with_error r e s) =
          rw (>>=-err (or_return (write_sync os) filesystem_error) (λ _. flush os) l r)
            (saved_with_error refl e s)
      go (cut tail rest r c e s) =
          rw (>>=-err (or_return (write_sync os) filesystem_error) (λ _. flush os) l r)
            (cut tail rest refl c e s)

  -- What `ULOG_Close` has done when it returns.
  pub data Closed (l : Inst os) (t : ℕ) (ms : List Message) (out : Result ErrorType Unit × Inst os)
      : Type 0 where
    closed :
        out.0 ≡ ok tt
        → out.1.phase ≡ phase_none
        → out.1.next_msg_id ≡ l.next_msg_id
        → Holds disk out.1 t (ms ++ synchronized ∷ [])
        → Closed l t ms out
    not_closed :
        out.0 ≡ err filesystem_error
        → out.1.phase ≡ l.phase
        → out.1.next_msg_id ≡ l.next_msg_id
        → Closed l t ms out

  close_file-cases :
      (l : Inst os) → ((close_file os l).0 ≡ ok tt) ⊎ ((close_file os l).0 ≡ err filesystem_error)
  unfolding close_file
  close_file-cases l = ground arith

  close_file-Holds :
      (l : Inst os) (t : ℕ) (ms : List Message)
      → Holds disk l t ms
      → Holds disk (close_file os l).1 t ms
  unfolding close_file
  close_file-Holds l t ms h = rw disk.closed h

  abbrev close_tail : Exec (Inst os) ErrorType Unit
  close_tail = close_file os >> set_phase os phase_none

  close_tail-Closed :
      (l l' : Inst os) (t : ℕ) (ms : List Message)
      → IsSame disk l l'
      → Holds disk l' t (ms ++ synchronized ∷ [])
      → Closed l t ms (close_tail l')
  close_tail-Closed l l' t ms s h = elim (close_file-cases l') [
    | inl done ↦
        rw (>>=-ok (close_file os) (λ _. set_phase os phase_none) l' done)
          (unfold close_file set_phase in closed refl refl s.next_msg_id (rw disk.closed h))
    | inr failed ↦
        rw (>>=-err (close_file os) (λ _. set_phase os phase_none) l' failed)
          (unfold close_file in not_closed refl s.phase s.next_msg_id)
  ]

  closing :
      (l : Inst os) (t : ℕ) (ms : List Message) → Holds disk l t ms → Closed l t ms (close os log l)
  unfolding close
  closing l t ms h = go (
      Added-Recorded disk l t ms synchronized (unfold encode in omega arith) h
        (or_return-Added disk (write_sync os) (sync-Added l)))
    where
      w : Exec (Inst os) ErrorType Unit
      w = or_return (write_sync os) filesystem_error

      go : Recorded disk l t ms synchronized (w l) → Closed l t ms ((w >> close_tail) l)
      go (saved r e s) = rw (>>=-ok w (λ _. close_tail) l r) (close_tail-Closed l (w l).1 t ms s e)
      go (saved_with_error r e s) =
          rw (>>=-err w (λ _. close_tail) l r) (not_closed refl s.phase s.next_msg_id)
      go (cut tail rest r c e s) =
          rw (>>=-err w (λ _. close_tail) l r) (not_closed refl s.phase s.next_msg_id)

  -- From a complete log in the data phase, on a file system as IsFile and NeverShort describe
  -- it: ULOG_Close adds a synchronisation message and leaves the phase NONE, or it returns
  -- ULOG_FILESYSTEM_ERROR and the phase stays; the next message id stays in both cases.
  pub close_lem :
      (l : Inst os) (t : ℕ) (ms : List Message)
      → l.phase ≡ phase_data
      → Holds disk l t ms
      → Closed l t ms (close os log l)
  close_lem l t ms p h = closing l t ms h

  Closed-result :
      (l : Inst os) (t : ℕ) (ms : List Message) (out : Result ErrorType Unit × Inst os)
      → Closed l t ms out
      → out.0 ≢ err wrong_phase
  Closed-result l t ms out (closed r p n h) = λ e. absurd (ground (arith, r, e))
  Closed-result l t ms out (not_closed r p n) = λ e. absurd (ground (arith, r, e))

  -- From a complete log outside the data phase, where ulog.h documents ULOG_WRONG_PHASE, on a
  -- file system as IsFile and NeverShort describe it: ULOG_Close does not return it; as in the
  -- data phase it adds a synchronisation message and leaves the phase NONE, or it returns
  -- ULOG_FILESYSTEM_ERROR and the phase stays.
  pub close_ignores_phase :
      (l : Inst os) (t : ℕ) (ms : List Message)
      → l.phase ≢ phase_data
      → Holds disk l t ms
      → ((close os log l).0 ≢ err wrong_phase) × Closed l t ms (close os log l)
  close_ignores_phase l t ms d h = let c = closing l t ms h in (Closed-result l t ms _ c, c)
