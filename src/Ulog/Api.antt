-- ===== src/Ulog/Api.antt =====
-- The operations of libs/logging/ulog/ulog.c. Each runs on the instance that `log` points to; the
-- pointers to keys, values and strings are the bytes found there, or `none` for NULL.
pub mod Messages
pub mod Strings
pub mod Lifecycle
pub mod Closing
pub mod AppendOnly
use efc.Common.{
  ℕ, ◌+◌, List, [], ◌∷◌, Bool, true, false, Option, some, ℤ, pos, is_negative, take, le_bytes,
  if◌then◌else◌,
}
use efc.Common.Exec.{Result, ok, err, Exec, raise, ◌>>=◌, ◌>>◌, or_return}
use efc.Ulog.Platform.{Platform, fs_o_create, fs_o_write}
use efc.Ulog.Types.{
  ErrorType, invalid_param, filesystem_error, wrong_phase, LogLevel, level_code, Phase, phase_none,
  phase_definitions, phase_data, Inst, LogPointer, null, log,
}
use efc.Ulog.Write.{message_header, try_write, uptime_us, write_header, write_flag_bits, write_sync}

-- `==` on phases
abbrev same_phase : Phase → Phase → Bool
same_phase phase_none phase_none = true
same_phase phase_definitions phase_definitions = true
same_phase phase_data phase_data = true
same_phase _ _ = false

module _ (os : Platform) where
  -- `ret = fs_write(...); if (ret < 0) return ULOG_FILESYSTEM_ERROR;`
  unfoldable pub save : List ℕ → Exec (Inst os) ErrorType Unit
  save bytes = or_return (try_write os bytes) filesystem_error

  -- `if (log->phase != phase) return ULOG_WRONG_PHASE;`
  unfoldable pub require_phase : Phase → Exec (Inst os) ErrorType Unit
  require_phase phase l = if same_phase l.phase phase then (ok tt, l) else (err wrong_phase, l)

  set_phase : Phase → Exec (Inst os) ErrorType Unit
  set_phase phase l = (ok tt, record l { phase = phase })

  -- `fs_file_t_init` and `fs_open`
  open_file : List ℕ → Exec (Inst os) ErrorType Unit
  open_file filename l =
      let (ret, file') =
        os.fs_open filename (fs_o_create ∷ fs_o_write ∷ []) (os.fs_file_t_init l.file) in
      (if is_negative ret then err filesystem_error else ok tt, record l { file = file' })

  enter_definitions : Exec (Inst os) ErrorType Unit
  enter_definitions l = (ok tt, record l { phase = phase_definitions; next_msg_id = 0 })

  -- `cfg` is the file name of the configuration.
  unfoldable pub init : LogPointer → Option (List ℕ) → Exec (Inst os) ErrorType Unit
  unfolding open_file enter_definitions
  init log (some filename) = do
    open_file filename
    or_return (write_header os) filesystem_error
    or_return (write_flag_bits os false false (0 ∷ 0 ∷ 0 ∷ [])) filesystem_error
    enter_definitions
  init _ _ = raise invalid_param

  unfoldable pub add_info :
      LogPointer → Option (List ℕ) → ℕ → Option (List ℕ) → ℕ → Exec (Inst os) ErrorType Unit
  add_info log (some key) key_len (some val) val_len = do
    require_phase phase_definitions
    save (message_header b'I' (1 + key_len + val_len))
    save (le_bytes 1 key_len)
    save (take key_len key)
    save (take val_len val)
  add_info _ _ _ _ _ = raise invalid_param

  unfoldable pub add_parameter :
      LogPointer → Option (List ℕ) → ℕ → Option (List ℕ) → Exec (Inst os) ErrorType Unit
  add_parameter log (some key) key_len (some val) = do
    save (message_header b'P' (1 + key_len + 4))
    save (le_bytes 1 key_len)
    save (take key_len key)
    save (take 4 val)
  add_parameter _ _ _ _ = raise invalid_param

  -- There is no NULL check: the instance is dereferenced.
  unfoldable pub start_data_phase : Exec (Inst os) ErrorType Unit
  unfolding set_phase
  start_data_phase = do require_phase phase_definitions; set_phase phase_data

  unfoldable pub log_string :
      LogPointer → Option (List ℕ) → ℕ → LogLevel → Exec (Inst os) ErrorType Unit
  log_string log (some string) len level = do
    require_phase phase_data
    save (message_header b'L' (1 + 8 + len))
    save (le_bytes 1 (level_code level))
    us ← uptime_us os
    save (le_bytes 8 us)
    save (take len string)
  log_string _ _ _ _ = raise invalid_param

  unfoldable pub log_tagged_string :
      LogPointer → Option (List ℕ) → ℕ → LogLevel → ℕ → Exec (Inst os) ErrorType Unit
  log_tagged_string log (some string) len level tag = do
    require_phase phase_data
    save (message_header b'C' (1 + 2 + 8 + len))
    save (le_bytes 1 (level_code level))
    save (le_bytes 2 tag)
    us ← uptime_us os
    save (le_bytes 8 us)
    save (take len string)
  log_tagged_string _ _ _ _ _ = raise invalid_param

  unfoldable pub log_dropout : LogPointer → ℕ → Exec (Inst os) ErrorType Unit
  log_dropout log duration_ms = do
    require_phase phase_data
    save (message_header b'O' 2)
    save (le_bytes 2 duration_ms)
  log_dropout null _ = raise invalid_param

  -- `ret == 0 ? ULOG_SUCCESS : ULOG_FILESYSTEM_ERROR`
  abbrev zero_or_error : ℤ → Result ErrorType Unit
  zero_or_error (pos ℕ.zero) = ok tt
  zero_or_error _ = err filesystem_error

  flush : Exec (Inst os) ErrorType Unit
  flush l = let (ret, file') = os.fs_sync l.file in (zero_or_error ret, record l { file = file' })

  unfoldable pub sync : LogPointer → Exec (Inst os) ErrorType Unit
  unfolding flush
  sync log = do require_phase phase_data; or_return (write_sync os) filesystem_error; flush
  sync null = raise invalid_param

  close_file : Exec (Inst os) ErrorType Unit
  close_file l =
      let (ret, file') = os.fs_close l.file in
      (if is_negative ret then err filesystem_error else ok tt, record l { file = file' })

  unfoldable pub close : LogPointer → Exec (Inst os) ErrorType Unit
  unfolding close_file set_phase
  close log = do or_return (write_sync os) filesystem_error; close_file; set_phase phase_none
  close null = raise invalid_param

  unfoldable pub get_phase : Inst os → Phase
  get_phase l = l.phase
