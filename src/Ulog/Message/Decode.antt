-- ===== src/Ulog/Message/Decode.antt =====
-- Reading a message back from its type and payload, by the description of the ULog format.
use efc.Common.{
  ℕ, ◌^◌, ◌<◌, ◌≡◌, refl, ap, List, [], ◌∷◌, ◌++◌, Option, none, some, leb, ◌==◌, le→leb, arith,
  length, length-append, take, drop, take-append, drop-append, take-append_eq, drop-append_eq,
  append_assoc, of_le, le_bytes, of_le-le_bytes, if◌then◌else◌,
}
use efc.Ulog.Format.{Frame}
use efc.Ulog.Message.{
  Message, flag_bits, format, info, parameter, subscription, logged, text, tagged_text, dropout,
  synchronized, encode,
}

-- A counted key and what follows it.
decode_key : (List ℕ → List ℕ → Message) → List ℕ → Option Message
decode_key build [] = none
decode_key build (n ∷ rest) =
    if leb n (length rest) then some (build (take n rest) (drop n rest)) else none

decode_flags : List ℕ → Option Message
decode_flags p =
    if length p == 40
    then some (flag_bits (take 8 p) (take 8 (drop 8 p)) (drop 8 (drop 8 p)))
    else none

decode_subscription : List ℕ → Option Message
decode_subscription (multi_id ∷ lo ∷ hi ∷ name) =
    some (subscription multi_id (of_le (lo ∷ hi ∷ [])) name)
decode_subscription _ = none

decode_logged : List ℕ → Option Message
decode_logged (lo ∷ hi ∷ fields) = some (logged (of_le (lo ∷ hi ∷ [])) fields)
decode_logged _ = none

decode_text : List ℕ → Option Message
decode_text [] = none
decode_text (level ∷ rest) =
    if leb 8 (length rest) then some (text level (of_le (take 8 rest)) (drop 8 rest)) else none

decode_tagged_text : List ℕ → Option Message
decode_tagged_text (level ∷ lo ∷ hi ∷ rest) =
    if leb 8 (length rest)
    then some (tagged_text level (of_le (lo ∷ hi ∷ [])) (of_le (take 8 rest)) (drop 8 rest))
    else none
decode_tagged_text _ = none

decode_dropout : List ℕ → Option Message
decode_dropout (lo ∷ hi ∷ []) = some (dropout (of_le (lo ∷ hi ∷ [])))
decode_dropout _ = none

decode_sync : List ℕ → Option Message
decode_sync p = if length p == 8 then some synchronized else none

unfoldable pub decode : Frame → Option Message
unfolding decode_key decode_flags decode_subscription decode_logged decode_text decode_tagged_text
    decode_dropout decode_sync
decode f =
    if f.kind == b'B'
    then decode_flags f.payload
    else if f.kind == b'F'
    then some (format f.payload)
    else if f.kind == b'I'
    then decode_key info f.payload
    else if f.kind == b'P'
    then decode_key parameter f.payload
    else if f.kind == b'A'
    then decode_subscription f.payload
    else if f.kind == b'D'
    then decode_logged f.payload
    else if f.kind == b'L'
    then decode_text f.payload
    else if f.kind == b'C'
    then decode_tagged_text f.payload
    else if f.kind == b'O'
    then decode_dropout f.payload
    else if f.kind == b'S'
    then decode_sync f.payload
    else none

-- The fields fit the widths that the format gives them.
abbrev pub IsWellFormed : Message → Type 0
IsWellFormed (flag_bits compat incompat offsets) =
    (length compat ≡ 8) × (length incompat ≡ 8) × (length offsets ≡ 24)
IsWellFormed (subscription multi_id msg_id name) = msg_id < 2 ^ 16
IsWellFormed (logged msg_id fields) = msg_id < 2 ^ 16
IsWellFormed (text level us string) = us < 2 ^ 64
IsWellFormed (tagged_text level tag us string) = (tag < 2 ^ 16) × (us < 2 ^ 64)
IsWellFormed (dropout ms) = ms < 2 ^ 16
IsWellFormed _ = Unit {0}

decode_key-append :
    (build : List ℕ → List ℕ → Message) (key val : List ℕ)
    → decode_key build (length key ∷ key ++ val) ≡ some (build key val)
unfolding decode_key
decode_key-append build key val = rw (
  le→leb (length key) (length (key ++ val)) (omega (arith, length-append key val)),
  take-append key val,
  drop-append key val,
)

decode_flags-append :
    (compat incompat offsets : List ℕ)
    → IsWellFormed (flag_bits compat incompat offsets)
    → decode_flags (compat ++ incompat ++ offsets) ≡ some (flag_bits compat incompat offsets)
unfolding decode_flags
decode_flags-append compat incompat offsets (hc, hi, ho) = rw append_assoc (
    ground (
      arith,
      length-append compat (incompat ++ offsets),
      length-append incompat offsets,
      take-append_eq 8 compat (incompat ++ offsets) hc,
      drop-append_eq 8 compat (incompat ++ offsets) hc,
      take-append_eq 8 incompat offsets hi,
      drop-append_eq 8 incompat offsets hi,
    ))

-- No two messages look alike: every message is read back from its bytes.
pub decode-encode : (m : Message) → IsWellFormed m → decode (encode m) ≡ some m
unfolding decode encode
decode-encode (flag_bits compat incompat offsets) h = decode_flags-append compat incompat offsets h
decode-encode (format definition) h = refl
decode-encode (info key val) h = decode_key-append info key val
decode-encode (parameter key val) h = decode_key-append parameter key val
decode-encode (subscription multi_id msg_id name) h =
    ap (λ i. some (subscription multi_id i name)) (of_le-le_bytes 2 msg_id h)
decode-encode (logged msg_id fields) h =
    ap (λ i. some (logged i fields)) (of_le-le_bytes 2 msg_id h)
decode-encode (text level us string) h = ground (arith, of_le-le_bytes 8 us h)
decode-encode (tagged_text level tag us string) h =
    ground (arith, of_le-le_bytes 2 tag h.0, of_le-le_bytes 8 us h.1)
decode-encode (dropout ms) h = ap (λ d. some (dropout d)) (of_le-le_bytes 2 ms h)
decode-encode synchronized h = refl

-- A text and a tagged text of any time.
pub decode-text :
    (level us : ℕ) (string : List ℕ)
    → decode (encode (text level us string)) ≡ some (text level (of_le (le_bytes 8 us)) string)
unfolding decode encode
decode-text level us string = ground arith

pub decode-tagged_text :
    (level tag us : ℕ) (string : List ℕ)
    → tag < 2 ^ 16
    → decode (encode (tagged_text level tag us string))
      ≡ some (tagged_text level tag (of_le (le_bytes 8 us)) string)
unfolding decode encode
decode-tagged_text level tag us string h = ground (arith, of_le-le_bytes 2 tag h)
