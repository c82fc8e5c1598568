-- ===== src/Ulog/Api/AppendOnly.antt =====
-- No operation of ulog.c but ULOG_Init changes what is in the file before its position.
use efc.Common.{ℕ, refl, List, Option, none, some}
use efc.Common.Exec.{raise}
use efc.Ulog.Platform.{Platform, IsFile}
use efc.Ulog.Types.{ErrorType, invalid_param, filesystem_error, LogLevel, LogPointer, null, log}
use efc.Ulog.Write.{write_sync}
use efc.Ulog.Api
use efc.Ulog.Api.{flush, close_file, set_phase}
use efc.Ulog.Appends.{
  same-Over, Appends, >>=-Appends, or_return-Appends, try_write-Appends, save-Appends,
  raise-Appends, require_phase-Appends, uptime_us-Appends,
}

module _ {os : Platform} (disk : IsFile os) where
  refused-Appends : Appends disk (raise {A = Unit {0}} invalid_param)
  refused-Appends = raise-Appends disk (Unit {0}) invalid_param

  pub add_info-Appends :
      (p : LogPointer) (key : Option (List ℕ)) (key_len : ℕ) (val : Option (List ℕ)) (val_len : ℕ)
      → Appends disk (Api.add_info os p key key_len val val_len)
  unfolding Api.add_info
  add_info-Appends log (some key) key_len (some val) val_len =
      >>=-Appends disk _ _ (require_phase-Appends disk _) (λ checked.
        >>=-Appends disk _ _ (save-Appends disk _) (λ header.
          >>=-Appends disk _ _ (save-Appends disk _)
            (λ size. >>=-Appends disk _ _ (save-Appends disk _) (λ name. save-Appends disk _))))
  add_info-Appends log (some key) key_len none val_len = refused-Appends
  add_info-Appends log none key_len val val_len = refused-Appends
  add_info-Appends null key key_len val val_len = refused-Appends

  pub add_parameter-Appends :
      (p : LogPointer) (key : Option (List ℕ)) (key_len : ℕ) (val : Option (List ℕ))
      → Appends disk (Api.add_parameter os p key key_len val)
  unfolding Api.add_parameter
  add_parameter-Appends log (some key) key_len (some val) =
      >>=-Appends disk _ _ (save-Appends disk _) (λ header.
        >>=-Appends disk _ _ (save-Appends disk _)
          (λ size. >>=-Appends disk _ _ (save-Appends disk _) (λ name. save-Appends disk _)))
  add_parameter-Appends log (some key) key_len none = refused-Appends
  add_parameter-Appends log none key_len val = refused-Appends
  add_parameter-Appends null key key_len val = refused-Appends

  pub start_data_phase-Appends : Appends disk (Api.start_data_phase os)
  unfolding Api.start_data_phase
  start_data_phase-Appends =
      >>=-Appends disk _ _ (require_phase-Appends disk _)
        (λ checked l. same-Over disk _ _ refl refl)

  pub log_string-Appends :
      (p : LogPointer) (string : Option (List ℕ)) (len : ℕ) (level : LogLevel)
      → Appends disk (Api.log_string os p string len level)
  unfolding Api.log_string
  log_string-Appends log (some string) len level =
      >>=-Appends disk _ _ (require_phase-Appends disk _) (λ checked.
        >>=-Appends disk _ _ (save-Appends disk _) (λ header.
          >>=-Appends disk _ _ (save-Appends disk _) (λ code.
            >>=-Appends disk _ _ (uptime_us-Appends disk ErrorType)
              (λ us. >>=-Appends disk _ _ (save-Appends disk _) (λ time. save-Appends disk _)))))
  log_string-Appends log none len level = refused-Appends
  log_string-Appends null string len level = refused-Appends

  pub log_tagged_string-Appends :
      (p : LogPointer) (string : Option (List ℕ)) (len : ℕ) (level : LogLevel) (tag : ℕ)
      → Appends disk (Api.log_tagged_string os p string len level tag)
  unfolding Api.log_tagged_string
  log_tagged_string-Appends log (some string) len level tag =
      >>=-Appends disk _ _ (require_phase-Appends disk _) (λ checked.
        >>=-Appends disk _ _ (save-Appends disk _) (λ header.
          >>=-Appends disk _ _ (save-Appends disk _) (λ code.
            >>=-Appends disk _ _ (save-Appends disk _) (λ tagged.
              >>=-Appends disk _ _ (uptime_us-Appends disk ErrorType)
                (λ us. >>=-Appends disk _ _ (save-Appends disk _) (λ time. save-Appends disk _))))))
  log_tagged_string-Appends log none len level tag = refused-Appends
  log_tagged_string-Appends null string len level tag = refused-Appends

  pub log_dropout-Appends :
      (p : LogPointer) (duration_ms : ℕ) → Appends disk (Api.log_dropout os p duration_ms)
  unfolding Api.log_dropout
  log_dropout-Appends log duration_ms =
      >>=-Appends disk _ _ (require_phase-Appends disk _)
        (λ checked. >>=-Appends disk _ _ (save-Appends disk _) (λ header. save-Appends disk _))
  log_dropout-Appends null duration_ms = refused-Appends

  write_sync-Appends : Appends disk (write_sync os)
  unfolding write_sync
  write_sync-Appends =
      >>=-Appends disk _ _ (try_write-Appends disk _) (λ header. try_write-Appends disk _)

  pub sync-Appends : (p : LogPointer) → Appends disk (Api.sync os p)
  unfolding Api.sync
  sync-Appends log = >>=-Appends disk _ _ (require_phase-Appends disk _) (λ checked.
      >>=-Appends disk _ _ (or_return-Appends disk _ filesystem_error write_sync-Appends)
        (λ synced l. same-Over disk _ _ (disk.synced l.file) (disk.synced_behind l.file)))
  sync-Appends null = refused-Appends

  pub close-Appends : (p : LogPointer) → Appends disk (Api.close os p)
  unfolding Api.close
  close-Appends log =
      >>=-Appends disk _ _ (or_return-Appends disk _ filesystem_error write_sync-Appends) (λ synced.
        >>=-Appends disk _ _
          (λ l. same-Over disk _ _ (disk.closed l.file) (disk.closed_behind l.file))
          (λ closed l. same-Over disk _ _ refl refl))
  close-Appends null = refused-Appends
