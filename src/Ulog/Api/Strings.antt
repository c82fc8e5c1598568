-- ===== src/Ulog/Api/Strings.antt =====
-- What the string operations of ulog.c leave in the log: messages with a time in them.
use efc.Common.{
  ℕ, ◌+◌, ◌*◌, ◌%◌, ◌^◌, ◌≤◌, ◌<◌, ◌≡◌, refl, List, [], ◌∷◌, ◌++◌, arith, some, length, length-take,
  take, le_bytes,
}
use efc.Common.Exec.{Result, Exec, ◌>>=◌, ◌>>◌}
use efc.Ulog.Platform.{Platform, IsFile, NeverShort}
use efc.Ulog.Types.{ErrorType, LogLevel, level_code, phase_data, Inst, log}
use efc.Ulog.Message.{Message, text, tagged_text, encode}
use efc.Ulog.Write.{message_header, uptime_us}
use efc.Ulog.Outcome.{IsRefusal, save-Added, >>-Added, Timed, >>-Timed, uptime-Timed}
use efc.Ulog.Recorded.{Holds, Recorded, Added-Recorded, header-frame}
use efc.Ulog.Api.{save, log_string, log_tagged_string}
use efc.Ulog.Api.Messages.{require_phase-pass}

abbrev pub micros : ℕ → ℕ
micros ms = ms * 1000 % 2 ^ 64

module _ {os : Platform} (disk : IsFile os) where
  -- `Recorded` for a message with a time: the clock showed it while the operation ran.
  pub record RecordedAt (l : Inst os) (t : ℕ) (ms : List Message) (m : ℕ → Message)
      (out : Result ErrorType Unit × Inst os) : Type 0 where
    pub now : ℕ
    pub after : os.k_uptime_get l.file ≤ now
    pub before : now ≤ os.k_uptime_get out.1.file
    pub recorded : Recorded disk l t ms (m (micros now)) out

  module _ (full : NeverShort os) where
    message-RecordedAt :
        (l : Inst os) (t : ℕ) (ms : List Message) (m : ℕ → Message) (kind size : ℕ)
        (body : Exec (Inst os) ErrorType Unit)
        → ((us : ℕ) → kind ≡ (encode (m us)).kind)
        → ((us : ℕ) → size ≡ length (encode (m us)).payload)
        → size < 2 ^ 16
        → Holds disk l t ms
        → ((l' : Inst os)
            → Timed disk (IsRefusal disk) l' (λ now. (encode (m (micros now))).payload) (body l'))
        → RecordedAt l t ms m ((save os (message_header kind size) >> body) l)
    message-RecordedAt l t ms m kind size body k e fits h writes = record {
      now = all.ms;
      after = all.after;
      before = all.before;
      recorded = Added-Recorded disk l t ms (m us) (omega (arith, e us)) h (
          rw (← header-frame (encode (m us)).kind size (encode (m us)).payload (e us) fits, ← k us)
            all.added);
    }
      where
        all :
            Timed disk
              (IsRefusal disk)
              l
              (λ now. message_header kind size ++ (encode (m (micros now))).payload)
              ((save os (message_header kind size) >> body) l)
        all =
            >>-Timed disk (save os (message_header kind size)) body
              (save-Added disk full l (message_header kind size)) writes

        us : ℕ
        us = micros all.ms

    -- The clock, then a string.
    stamp-Timed :
        (l : Inst os) (string : List ℕ)
        → Timed disk
            (IsRefusal disk)
            l
            (λ now. le_bytes 8 (micros now) ++ string)
            ((uptime_us os >>= λ us. save os (le_bytes 8 us) >> save os string) l)
    stamp-Timed l string =
        uptime-Timed disk (λ us. save os (le_bytes 8 us) >> save os string)
          λ now.
            >>-Added disk (save os (le_bytes 8 (micros now))) (save os string)
              (save-Added disk full l (le_bytes 8 (micros now)))
              λ l'. save-Added disk full l' string

    -- One byte is enough for a level.
    level_byte : (level : LogLevel) → level_code level % 256 ≡ level_code level
    level_byte level = ground arith

    -- From a complete log in the data phase, on a file system as IsFile and NeverShort
    -- describe it, for a string that is as long as stated and fits: ULOG_LogString adds the
    -- string with its level and a time at which the clock stood during the call, or it
    -- returns ULOG_FILESYSTEM_ERROR with the old messages and that message or a beginning of
    -- it in the file.
    pub log_string_lem :
        (l : Inst os) (t : ℕ) (ms : List Message) (string : List ℕ) (len : ℕ) (level : LogLevel)
        → l.phase ≡ phase_data
        → len ≤ length string
        → 1 + 8 + len < 2 ^ 16
        → Holds disk l t ms
        → RecordedAt l t ms
            (λ us. text (level_code level) us (take len string))
            (log_string os log (some string) len level l)
    unfolding log_string encode
    log_string_lem l t ms string len level p hl fits h = rw (require_phase-pass phase_data l _ p) (
        message-RecordedAt l t ms (λ us. text (level_code level) us (take len string)) b'L'
          (1 + 8 + len) _ (λ us. refl) (λ us. omega (arith, length-take len string hl)) fits h
          λ l'. rw (level_byte level) (
            >>-Timed disk (save os (level_code level ∷ [])) _
              (save-Added disk full l' (level_code level ∷ []))
              λ l''. stamp-Timed l'' (take len string)))

    -- From a complete log in the data phase, on a file system as IsFile and NeverShort
    -- describe it, for a string that is as long as stated and fits: ULOG_LogTaggedString adds
    -- the string with its level, its tag and a time at which the clock stood during the call,
    -- or it returns ULOG_FILESYSTEM_ERROR with the old messages and that message or a
    -- beginning of it in the file.
    pub log_tagged_string_lem :
        (l : Inst os) (t : ℕ) (ms : List Message) (string : List ℕ) (len : ℕ) (level : LogLevel)
        (tag : ℕ)
        → l.phase ≡ phase_data
        → len ≤ length string
        → 1 + 2 + 8 + len < 2 ^ 16
        → Holds disk l t ms
        → RecordedAt l t ms
            (λ us. tagged_text (level_code level) tag us (take len string))
            (log_tagged_string os log (some string) len level tag l)
    unfolding log_tagged_string encode
    log_tagged_string_lem l t ms string len level tag p hl fits h =
        rw (require_phase-pass phase_data l _ p) (
          message-RecordedAt l t ms (λ us. tagged_text (level_code level) tag us (take len string))
            b'C' (1 + 2 + 8 + len) _ (λ us. refl) (λ us. omega (arith, length-take len string hl))
            fits h
            λ l'. rw (level_byte level) (
              >>-Timed disk (save os (level_code level ∷ [])) _
                (save-Added disk full l' (level_code level ∷ []))
                λ l''.
                  >>-Timed disk (save os (le_bytes 2 tag)) _
                    (save-Added disk full l'' (le_bytes 2 tag))
                    λ l'''. stamp-Timed l''' (take len string)))
