-- ===== src/Ulog/Session.antt =====
-- Clients of the log writer: sequences of calls of ulog.c and of the generated code, and the
-- abstract log that they see.
pub mod Agrees
pub mod Refine
pub mod ReadBack
pub mod Step
pub mod RoundTrip
pub mod Ids
pub mod AppendOnly
pub mod Pretends
pub mod Full
use mathlib.Core.Logic.{ite}
use efc.Common.{
  ℕ, ◌+◌, ◌*◌, ◌%◌, ◌^◌, ◌≤◌, ◌<◌, ◌≡◌, List, [], ◌∷◌, ◌++◌, Option, none, some, length, take, map,
}
use efc.Common.Exec.{Result, ok, err, Exec, ◌>>=◌, ◌>>◌, pure}
use efc.Ulog.Platform.{Platform, IsFile}
use efc.Ulog.Types.{
  ErrorType, invalid_param, wrong_phase, LogLevel, level_code, Phase, phase_definitions, phase_data,
  Inst, LogPointer, null, log,
}
use efc.Ulog.Message.{
  Message, format, info, parameter, subscription, logged, text, tagged_text, dropout, synchronized,
}
use efc.Ulog.Recorded.{Holds}
use efc.Ulog.Api
use efc.Ulog.Generated
use efc.Ulog.Generated.{Definition, format_string, sizes}
use efc.Ulog.Generated.Messages.{field_bytes}

-- A call with its arguments; pointers as in the code.
pub data Call : Type 0 where
  add_info : LogPointer → Option (List ℕ) → ℕ → Option (List ℕ) → ℕ → Call
  add_parameter : LogPointer → Option (List ℕ) → ℕ → Option (List ℕ) → Call
  start_data_phase : Call
  log_string : LogPointer → Option (List ℕ) → ℕ → LogLevel → Call
  log_tagged_string : LogPointer → Option (List ℕ) → ℕ → LogLevel → ℕ → Call
  log_dropout : LogPointer → ℕ → Call
  sync : LogPointer → Call
  register_format : Definition → LogPointer → Call
  subscribe : Definition → LogPointer → ℕ → Call
  write : Definition → LogPointer → Option (List ℕ) → ℕ → Call

module _ (os : Platform) where
  unfoldable pub perform : Call → Exec (Inst os) ErrorType Unit
  perform (add_info p key key_len val val_len) = Api.add_info os p key key_len val val_len
  perform (add_parameter p key key_len val) = Api.add_parameter os p key key_len val
  perform start_data_phase = Api.start_data_phase os
  perform (log_string p string len level) = Api.log_string os p string len level
  perform (log_tagged_string p string len level tag) =
      Api.log_tagged_string os p string len level tag
  perform (log_dropout p duration_ms) = Api.log_dropout os p duration_ms
  perform (sync p) = Api.sync os p
  perform (register_format d p) = Generated.register_format os d p
  perform (subscribe d p multi_id) = Generated.subscribe os d p multi_id >>= λ _. pure tt
  perform (write d p values msg_id) = Generated.write os d p values msg_id

  unfoldable pub run : List Call → Inst os → List (Result ErrorType Unit) × Inst os
  run [] l = ([], l)
  run (c ∷ cs) l = let (r, l') = perform c l in let (rs, l'') = run cs l' in (r ∷ rs, l'')

-- The abstract log: where a log stands, and its messages with their times left out.
pub record Journal : Type 0 where
  pub phase : Phase
  pub next_msg_id : ℕ
  pub messages : List Message

pub Phase-discrete : Discrete Phase
Phase-discrete = hlevel

abbrev pub append_to : Journal → Message → Journal
append_to j m = record j { messages = j.messages ++ m ∷ [] }

-- In phase `p` the rest happens; in any other the call is refused.
abbrev pub only_in : Phase → Journal → Journal → Result ErrorType Unit × Journal
only_in p j j' = ite (Phase-discrete j.phase p) (ok tt, j') (err wrong_phase, j)

-- What a call promises.
unfoldable pub promise : Call → Journal → Result ErrorType Unit × Journal
promise (add_info log (some key) key_len (some val) val_len) j =
    only_in phase_definitions j (append_to j (info (take key_len key) (take val_len val)))
promise (add_parameter log (some key) key_len (some val)) j =
    (ok tt, append_to j (parameter (take key_len key) (take 4 val)))
promise start_data_phase j = only_in phase_definitions j (record j { phase = phase_data })
promise (log_string log (some string) len level) j =
    only_in phase_data j (append_to j (text (level_code level) 0 (take len string)))
promise (log_tagged_string log (some string) len level tag) j =
    only_in phase_data j (append_to j (tagged_text (level_code level) tag 0 (take len string)))
promise (log_dropout log duration_ms) j = only_in phase_data j (append_to j (dropout duration_ms))
promise (sync log) j = only_in phase_data j (append_to j synchronized)
promise (register_format d log) j =
    only_in phase_definitions j (append_to j (format (format_string d)))
promise (subscribe d log multi_id) j = only_in phase_data j (record j {
  messages = j.messages ++ subscription multi_id j.next_msg_id d.name ∷ [];
  next_msg_id = (j.next_msg_id + 1) % 2 ^ 16;
})
promise (write d log (some values) msg_id) j =
    only_in phase_data j (append_to j (logged msg_id (field_bytes d.fields values)))
promise _ j = (err invalid_param, j)

unfoldable pub promises : List Call → Journal → List (Result ErrorType Unit) × Journal
promises [] j = ([], j)
promises (c ∷ cs) j = let (r, j') = promise c j in let (rs, j'') = promises cs j' in (r ∷ rs, j'')

-- The lengths that a caller owes: buffers as long as stated, sizes that fit their fields.
abbrev pub IsSized : Call → Type 0
IsSized (add_info log (some key) key_len (some val) val_len) =
    (key_len ≤ length key)
    × (val_len ≤ length val)
    × (key_len < 2 ^ 8)
    × (1 + key_len + val_len < 2 ^ 16)
IsSized (add_parameter log (some key) key_len (some val)) =
    (key_len ≤ length key) × (4 ≤ length val) × (key_len < 2 ^ 8)
IsSized (log_string log (some string) len level) = (len ≤ length string) × (1 + 8 + len < 2 ^ 16)
IsSized (log_tagged_string log (some string) len level tag) =
    (len ≤ length string) × (1 + 2 + 8 + len < 2 ^ 16)
IsSized (register_format d log) = length (format_string d) < 2 ^ 16
IsSized (subscribe d log multi_id) = (multi_id < 2 ^ 8) × (1 + 2 + length d.name < 2 ^ 16)
IsSized (write d log (some values) msg_id) =
    (length values ≡ length d.fields) × (2 + sizes d.fields < 2 ^ 16)
IsSized _ = Unit {0}

abbrev pub AllSized : List Call → Type 0
AllSized [] = Unit {0}
AllSized (c ∷ cs) = IsSized c × AllSized cs

-- A message with its time left out.
abbrev pub untimed : Message → Message
untimed (text level us string) = text level 0 string
untimed (tagged_text level tag us string) = tagged_text level tag 0 string
untimed m = m

-- The file of `l` is a complete log whose messages are those of the journal.
pub record Shows {os : Platform} (disk : IsFile os) (l : Inst os) (j : Journal) : Type 0 where
  pub phase : l.phase ≡ j.phase
  pub next_msg_id : l.next_msg_id ≡ j.next_msg_id
  pub start_us : ℕ
  pub messages : List Message
  pub holds : Holds disk l start_us messages
  pub same : map untimed messages ≡ j.messages
