-- ===== src/Ulog/Message.antt =====
-- The messages of the ULog format and their layout, as its description gives them.
pub mod Decode
use efc.Common.{ℕ, ◌+◌, ◌^◌, ◌≤◌, ◌<◌, List, [], ◌∷◌, ◌++◌, le_bytes, length}
use efc.Ulog.Format.{Frame}

pub data Message : Type 0 where
  -- compatible flags, incompatible flags, offsets of appended data
  flag_bits : List ℕ → List ℕ → List ℕ → Message
  -- `name:type field;...`
  format : List ℕ → Message
  -- key and value
  info : List ℕ → List ℕ → Message
  parameter : List ℕ → List ℕ → Message
  -- multi id, message id, name of the format
  subscription : ℕ → ℕ → List ℕ → Message
  -- message id and fields
  logged : ℕ → List ℕ → Message
  -- level, time in microseconds, text
  text : ℕ → ℕ → List ℕ → Message
  -- level, tag, time in microseconds, text
  tagged_text : ℕ → ℕ → ℕ → List ℕ → Message
  -- duration in milliseconds
  dropout : ℕ → Message
  synchronized : Message

unfoldable pub encode : Message → Frame
encode (flag_bits compat incompat offsets) = record {
  kind = b'B';
  payload = compat ++ incompat ++ offsets;
}
encode (format definition) = record { kind = b'F'; payload = definition }
encode (info key val) = record { kind = b'I'; payload = length key ∷ key ++ val }
encode (parameter key val) = record { kind = b'P'; payload = length key ∷ key ++ val }
encode (subscription multi_id msg_id name) = record {
  kind = b'A';
  payload = multi_id ∷ le_bytes 2 msg_id ++ name;
}
encode (logged msg_id fields) = record { kind = b'D'; payload = le_bytes 2 msg_id ++ fields }
encode (text level us string) = record { kind = b'L'; payload = level ∷ le_bytes 8 us ++ string }
encode (tagged_text level tag us string) = record {
  kind = b'C';
  payload = level ∷ le_bytes 2 tag ++ le_bytes 8 us ++ string;
}
encode (dropout ms) = record { kind = b'O'; payload = le_bytes 2 ms }
encode synchronized = record {
  kind = b'S';
  payload = 0x2f ∷ 0x73 ∷ 0x13 ∷ 0x20 ∷ 0x25 ∷ 0x0c ∷ 0xbb ∷ 0x12 ∷ [];
}

-- The size field has 16 bits.
abbrev pub Fits : Message → Type 0
Fits m = length (encode m).payload < 2 ^ 16
