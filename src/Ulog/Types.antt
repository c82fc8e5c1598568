-- ===== src/Ulog/Types.antt =====
-- The types of libs/logging/ulog/ulog.h.
use efc.Common.{ℕ}
use efc.Ulog.Platform.{Platform}

-- `ULOG_Error_Type` without `ULOG_SUCCESS`, which is the `ok tt` of a result.
pub data ErrorType : Type 0 where
  invalid_param filesystem_error wrong_phase : ErrorType

pub data LogLevel : Type 0 where
  emerg alert crit error warning notice info debug : LogLevel

-- The enumerators are the characters '0' to '7'.
abbrev pub level_code : LogLevel → ℕ
level_code emerg = b'0'
level_code alert = b'1'
level_code crit = b'2'
level_code error = b'3'
level_code warning = b'4'
level_code notice = b'5'
level_code info = b'6'
level_code debug = b'7'

pub data Phase : Type 0 where
  phase_none phase_definitions phase_data : Phase

-- `ULOG_Inst_Type`; the file handle stands for the platform's state behind it too.
pub record Inst (os : Platform) : Type 0 where
  pub phase : Phase
  pub file : os.State
  pub next_msg_id : ℕ

-- `ULOG_Inst_Type *log`: NULL, or the instance whose state an operation is given.
pub data LogPointer : Type 0 where
  null log : LogPointer
