-- ===== src/Ulog/Api/Messages.antt =====
-- What each operation of ulog.c that adds a message leaves in the log.
use efc.Common.{
  ℕ, ◌+◌, ◌%◌, ◌^◌, ◌≤◌, ◌<◌, ◌≡◌, ◌≢◌, List, [], ◌∷◌, ◌++◌, arith, some, length, length-append,
  length-take, take, le_bytes,
}
use efc.Common.Exec.{err, Exec, ◌>>=◌, ◌>>◌}
use efc.Ulog.Platform.{Platform, IsFile, NeverShort}
use efc.Ulog.Types.{ErrorType, wrong_phase, Phase, phase_definitions, phase_data, Inst, log}
use efc.Ulog.Message.{Message, info, parameter, dropout, encode}
use efc.Ulog.Write.{message_header}
use efc.Ulog.Outcome.{Added, IsRefusal, save-Added, >>-Added}
use efc.Ulog.Recorded.{Holds, Recorded, Added-Recorded, header-frame}
use efc.Ulog.Api.{save, require_phase, add_info, add_parameter, log_dropout}

module _ {os : Platform} where
  -- In the right phase the test passes and changes nothing.
  pub require_phase-pass :
      {A : Type 0} (phase : Phase) (l : Inst os) (rest : Exec (Inst os) ErrorType A)
      → l.phase ≡ phase
      → (require_phase os phase >> rest) l ≡ rest l
  unfolding require_phase ◌>>=◌
  require_phase-pass phase l rest e = ground arith

  -- In a wrong phase nothing else happens.
  pub require_phase-fail :
      {A : Type 0} (phase : Phase) (l : Inst os) (rest : Exec (Inst os) ErrorType A)
      → l.phase ≢ phase
      → (require_phase os phase >> rest) l ≡ (err wrong_phase, l)
  unfolding require_phase ◌>>=◌
  require_phase-fail phase l rest ne = ground arith

module _ {os : Platform} (disk : IsFile os) (full : NeverShort os) where
  -- A header of the right size, then a body that writes the payload.
  pub message-Recorded :
      (l : Inst os) (t : ℕ) (ms : List Message) (m : Message) (size : ℕ)
      (body : Exec (Inst os) ErrorType Unit)
      → size ≡ length (encode m).payload
      → size < 2 ^ 16
      → Holds disk l t ms
      → ((l' : Inst os) → Added disk (IsRefusal disk) l' (encode m).payload (body l'))
      → Recorded disk l t ms m ((save os (message_header (encode m).kind size) >> body) l)
  message-Recorded l t ms m size body e fits h writes =
      Added-Recorded disk l t ms m (omega arith) h (
        rw (← header-frame (encode m).kind size (encode m).payload e fits) (
          >>-Added disk (save os (message_header (encode m).kind size)) body
            (save-Added disk full l (message_header (encode m).kind size)) writes))

  -- `key_len`, the key and the value behind it: the payload of an info or a parameter message.
  key_value-Added :
      (l : Inst os) (key : List ℕ) (key_len : ℕ) (val : List ℕ)
      → key_len ≤ length key
      → key_len < 2 ^ 8
      → Added disk
          (IsRefusal disk)
          l
          (length (take key_len key) ∷ take key_len key ++ val)
          ((save os (le_bytes 1 key_len) >> (save os (take key_len key) >> save os val)) l)
  key_value-Added l key key_len val hk k8 =
      let byte : key_len % 256 ≡ key_len = omega arith in
      rw (length-take key_len key hk, byte)
        (>>-Added disk (save os (key_len ∷ [])) (save os (take key_len key) >> save os val)
          (save-Added disk full l (key_len ∷ []))
          λ l'.
            >>-Added disk (save os (take key_len key)) (save os val)
              (save-Added disk full l' (take key_len key)) λ l''. save-Added disk full l'' val)

  -- From a complete log in the definitions phase, on a file system as IsFile and NeverShort
  -- describe it, for a key and a value that are as long as stated and fit: ULOG_AddInfo adds
  -- the key and the value, or it returns ULOG_FILESYSTEM_ERROR with the old messages and that
  -- message or a beginning of it in the file.
  pub add_info_lem :
      (l : Inst os) (t : ℕ) (ms : List Message) (key : List ℕ) (key_len : ℕ) (val : List ℕ)
      (val_len : ℕ)
      → l.phase ≡ phase_definitions
      → key_len ≤ length key
      → val_len ≤ length val
      → key_len < 2 ^ 8
      → 1 + key_len + val_len < 2 ^ 16
      → Holds disk l t ms
      → Recorded disk l t ms
          (info (take key_len key) (take val_len val))
          (add_info os log (some key) key_len (some val) val_len l)
  unfolding add_info encode
  add_info_lem l t ms key key_len val val_len p hk hv k8 fits h =
      rw (require_phase-pass phase_definitions l _ p) (
        message-Recorded l t ms (info (take key_len key) (take val_len val)) (1 + key_len + val_len)
          _
          (omega (
            arith,
            length-append (take key_len key) (take val_len val),
            length-take key_len key hk,
            length-take val_len val hv,
          ))
          fits h (λ l'. key_value-Added l' key key_len (take val_len val) hk k8))

  -- From a complete log in any phase, on a file system as IsFile and NeverShort describe it,
  -- for a key that is as long as stated and fits: ULOG_AddParameter adds the key and four bytes
  -- of the value, or it returns ULOG_FILESYSTEM_ERROR with the old messages and that message or
  -- a beginning of it in the file.
  pub add_parameter_lem :
      (l : Inst os) (t : ℕ) (ms : List Message) (key : List ℕ) (key_len : ℕ) (val : List ℕ)
      → key_len ≤ length key
      → 4 ≤ length val
      → key_len < 2 ^ 8
      → Holds disk l t ms
      → Recorded disk l t ms
          (parameter (take key_len key) (take 4 val))
          (add_parameter os log (some key) key_len (some val) l)
  unfolding add_parameter encode
  add_parameter_lem l t ms key key_len val hk hv k8 h =
      message-Recorded l t ms (parameter (take key_len key) (take 4 val)) (1 + key_len + 4) _
        (omega (
          arith,
          length-append (take key_len key) (take 4 val),
          length-take key_len key hk,
          length-take 4 val hv,
        ))
        (omega arith) h (λ l'. key_value-Added l' key key_len (take 4 val) hk k8)

  -- From a complete log in the data phase, on a file system as IsFile and NeverShort describe
  -- it: ULOG_LogDropout adds a dropout of that duration, or it returns ULOG_FILESYSTEM_ERROR
  -- with the old messages and that message or a beginning of it in the file.
  pub log_dropout_lem :
      (l : Inst os) (t : ℕ) (ms : List Message) (duration_ms : ℕ)
      → l.phase ≡ phase_data
      → Holds disk l t ms
      → Recorded disk l t ms (dropout duration_ms) (log_dropout os log duration_ms l)
  unfolding log_dropout encode
  log_dropout_lem l t ms duration_ms p h = rw (require_phase-pass phase_data l _ p) (
      message-Recorded l t ms (dropout duration_ms) 2 _ (omega arith) (omega arith) h
        (λ l'. save-Added disk full l' (le_bytes 2 duration_ms)))
