-- ===== src/Ulog/Session/ReadBack.antt =====
-- Reading all messages of a log file, times left out.
use efc.Common.{ℕ, ◌≡◌, refl, ap, ◌∙◌, List, [], ◌∷◌, Option, none, some, arith, map, All}
use efc.Ulog.Format.{Frame, Contents, read_log}
use efc.Ulog.Message.{
  Message, flag_bits, format, info, parameter, subscription, logged, text, tagged_text, dropout,
  synchronized, encode,
}
use efc.Ulog.Message.Decode.{decode, decode-encode, decode-text, decode-tagged_text, IsWellFormed}
use efc.Ulog.Session.{untimed}

abbrev add_to : Option (List Message) → Option Message → Option (List Message)
add_to (some ms) (some m) = some (untimed m ∷ ms)
add_to _ _ = none

abbrev decode_all : List Frame → Option (List Message)
decode_all [] = some []
decode_all (f ∷ fs) = add_to (decode_all fs) (decode f)

-- The messages of a log; `none` if one cannot be read or is cut off.
abbrev messages_of : Option Contents → Option (List Message)
messages_of none = none
messages_of (some c) = elim c.tail [ [] ↦ decode_all c.messages | b ∷ bs ↦ none ]

unfoldable pub read_messages : List ℕ → Option (List Message)
read_messages bytes = messages_of (read_log bytes)

abbrev untimed_of : Option Message → Option Message
untimed_of none = none
untimed_of (some m) = some (untimed m)

abbrev cons_to : List Message → Option Message → Option (List Message)
cons_to ms none = none
cons_to ms (some m) = some (m ∷ ms)

add_to_eq :
    (ms : List Message) (m : Option Message) (m' : Message)
    → untimed_of m ≡ some m'
    → add_to (some ms) m ≡ some (m' ∷ ms)
add_to_eq ms none m' h = absurd (ground (arith, h))
add_to_eq ms (some m) m' h = ap (cons_to ms) h

-- A message whose widths fit but for its time is read back but for its time.
decode-untimed :
    (m : Message) → IsWellFormed (untimed m) → untimed_of (decode (encode m)) ≡ some (untimed m)
decode-untimed (text level us string) h = ap untimed_of (decode-text level us string)
decode-untimed (tagged_text level tag us string) h =
    ap untimed_of (decode-tagged_text level tag us string h.0)
decode-untimed (flag_bits compat incompat offsets) h =
    ap untimed_of (decode-encode (flag_bits compat incompat offsets) h)
decode-untimed (format definition) h = ap untimed_of (decode-encode (format definition) h)
decode-untimed (info key val) h = ap untimed_of (decode-encode (info key val) h)
decode-untimed (parameter key val) h = ap untimed_of (decode-encode (parameter key val) h)
decode-untimed (subscription multi_id msg_id name) h =
    ap untimed_of (decode-encode (subscription multi_id msg_id name) h)
decode-untimed (logged msg_id fields) h = ap untimed_of (decode-encode (logged msg_id fields) h)
decode-untimed (dropout ms) h = ap untimed_of (decode-encode (dropout ms) h)
decode-untimed synchronized h = ap untimed_of (decode-encode synchronized h)

decode_all-encode :
    (ms : List Message)
    → All IsWellFormed (map untimed ms)
    → decode_all (map encode ms) ≡ some (map untimed ms)
decode_all-encode [] h = refl
decode_all-encode (m ∷ ms) (h, hs) =
    rw (decode_all-encode ms hs)
      (add_to_eq (map untimed ms) (decode (encode m)) (untimed m) (decode-untimed m h))

-- A complete log is read back.
pub read_messages_lem :
    (bytes : List ℕ) (start_us : ℕ) (ms : List Message)
    → read_log bytes ≡ some (record { start_us = start_us; messages = map encode ms; tail = [] })
    → All IsWellFormed (map untimed ms)
    → read_messages bytes ≡ some (map untimed ms)
unfolding read_messages
read_messages_lem bytes start_us ms h fine = ap messages_of h ∙ decode_all-encode ms fine
