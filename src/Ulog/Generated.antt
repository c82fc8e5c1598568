-- ===== src/Ulog/Generated.antt =====
-- The code that tools/ulog_gen.py generates for a message definition: its SOURCE_TEMPLATE, with the
-- fields of the definition as a parameter. The definitions in messages/ulog have no array fields,
-- so a field is one value.
pub mod Messages
pub mod AppendOnly
use efc.Common.{
  ℕ, suc, ◌+◌, ◌%◌, ◌^◌, List, [], ◌∷◌, ◌++◌, Option, none, some, length, le_bytes, codes,
}
use efc.Common.Exec.{Exec, pure, raise, ◌>>=◌, ◌>>◌}
use efc.Ulog.Platform.{Platform}
use efc.Ulog.Types.{
  ErrorType, invalid_param, phase_definitions, phase_data, Inst, LogPointer, null, log,
}
use efc.Ulog.Write.{message_header}
use efc.Ulog.Api.{save, require_phase}

-- `valid_types` of `check_field_types`
pub data CType : Type 0 where
  int8_t uint8_t int16_t uint16_t int32_t uint32_t int64_t uint64_t float double char bool : CType

abbrev pub type_name : CType → List ℕ
type_name int8_t = codes "int8_t"
type_name uint8_t = codes "uint8_t"
type_name int16_t = codes "int16_t"
type_name uint16_t = codes "uint16_t"
type_name int32_t = codes "int32_t"
type_name uint32_t = codes "uint32_t"
type_name int64_t = codes "int64_t"
type_name uint64_t = codes "uint64_t"
type_name float = codes "float"
type_name double = codes "double"
type_name char = codes "char"
type_name bool = codes "bool"

abbrev pub size_of : CType → ℕ
size_of int8_t = 1
size_of uint8_t = 1
size_of int16_t = 2
size_of uint16_t = 2
size_of int32_t = 4
size_of uint32_t = 4
size_of int64_t = 8
size_of uint64_t = 8
size_of float = 4
size_of double = 8
size_of char = 1
size_of bool = 1

pub record Field : Type 0 where
  pub name : List ℕ
  pub type : CType

-- A message definition: its name in lower case and its fields.
pub record Definition : Type 0 where
  pub name : List ℕ
  pub fields : List Field

-- `add_timestamp_field`
abbrev pub add_timestamp_field : Definition → Definition
add_timestamp_field d = record d {
  fields = record { name = codes "timestamp"; type = uint64_t } ∷ d.fields;
}

abbrev pub field_strings : List Field → List ℕ
field_strings [] = []
field_strings (f ∷ fs) = type_name f.type ++ b' ' ∷ f.name ++ b';' ∷ field_strings fs

-- `format_string`
abbrev pub format_string : Definition → List ℕ
format_string d = d.name ++ b':' ∷ field_strings d.fields

-- The sum of the `sizeof` of the fields.
abbrev pub sizes : List Field → ℕ
sizes [] = 0
sizes (f ∷ fs) = size_of f.type + sizes fs

module _ (os : Platform) where
  -- `ULOG_<name>_RegisterFormat`
  unfoldable pub register_format : Definition → LogPointer → Exec (Inst os) ErrorType Unit
  register_format d log = do
    require_phase os phase_definitions
    save os (message_header b'F' (length (format_string d)))
    save os (format_string d)
  register_format d null = raise invalid_param

  -- `*msg_id = log->next_msg_id; log->next_msg_id++;`, a `uint16_t`
  take_msg_id : Exec (Inst os) ErrorType ℕ
  unfolding pure
  take_msg_id l = pure l.next_msg_id (record l { next_msg_id = (l.next_msg_id + 1) % 2 ^ 16 })

  -- `&log->next_msg_id` in memory
  save_next_msg_id : Exec (Inst os) ErrorType Unit
  save_next_msg_id l = save os (le_bytes 2 l.next_msg_id) l

  -- `ULOG_<name>_Subscribe`; the result is what it stores through `msg_id`.
  unfoldable pub subscribe : Definition → LogPointer → ℕ → Exec (Inst os) ErrorType ℕ
  unfolding take_msg_id save_next_msg_id
  subscribe d log multi_id = do
    require_phase os phase_data
    save os (message_header b'A' (1 + 2 + length d.name))
    save os (le_bytes 1 multi_id)
    save_next_msg_id
    save os d.name
    take_msg_id
  subscribe d null multi_id = raise invalid_param

  -- One `fs_write` for each field of the struct, whose members are the numbers `vs` as bit patterns.
  unfoldable pub save_fields : List Field → List ℕ → Exec (Inst os) ErrorType Unit
  save_fields (f ∷ fs) (v ∷ vs) = do save os (le_bytes (size_of f.type) v); save_fields fs vs
  save_fields _ _ = pure tt

  -- `ULOG_<name>_Write`
  unfoldable pub write :
      Definition → LogPointer → Option (List ℕ) → ℕ → Exec (Inst os) ErrorType Unit
  unfolding save_fields
  write d log (some values) msg_id = do
    require_phase os phase_data
    save os (message_header b'D' (2 + sizes d.fields))
    save os (le_bytes 2 msg_id)
    save_fields d.fields values
  write d _ _ _ = raise invalid_param
