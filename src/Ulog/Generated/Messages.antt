-- ===== src/Ulog/Generated/Messages.antt =====
-- What the generated operations leave in the log.
use efc.Common.{
  ℕ, ◌+◌, ◌%◌, ◌^◌, ◌<◌, ◌≡◌, ◌≢◌, refl, ap, ◌∙◌, List, [], ◌∷◌, ◌++◌, arith, some, length,
  length-append, length-le_bytes, le_bytes, append-nil,
}
use efc.Common.Exec.{Result, ok, err, Exec, >>=-ok, >>=-err, ◌>>=◌, ◌>>◌, pure}
use efc.Ulog.Platform.{Platform, IsFile, NeverShort}
use efc.Ulog.Types.{
  ErrorType, wrong_phase, filesystem_error, phase_definitions, phase_data, Inst, log,
}
use efc.Ulog.Message.{Message, format, subscription, logged, encode}
use efc.Ulog.Write.{message_header}
use efc.Ulog.Outcome.{Added, whole, IsRefusal, IsSame-refl, save-Added, >>-Added, >>-Added_same}
use efc.Ulog.Recorded.{header-frame, Added-Recorded, Holds, Recorded, saved, saved_with_error, cut}
use efc.Ulog.Api.{save, require_phase}
use efc.Ulog.Api.Messages.{require_phase-pass, require_phase-fail, message-Recorded}
use efc.Ulog.Generated.{
  Field, Definition, format_string, sizes, size_of, register_format, subscribe, save_fields,
  save_next_msg_id, take_msg_id, write,
}

-- The members of a struct in memory, packed.
abbrev pub field_bytes : List Field → List ℕ → List ℕ
field_bytes (f ∷ fs) (v ∷ vs) = le_bytes (size_of f.type) v ++ field_bytes fs vs
field_bytes _ _ = []

length-field_bytes :
    (fs : List Field) (vs : List ℕ) → length vs ≡ length fs → length (field_bytes fs vs) ≡ sizes fs
length-field_bytes [] [] h = refl
length-field_bytes [] (v ∷ vs) h = absurd (omega arith)
length-field_bytes (f ∷ fs) [] h = absurd (omega arith)
length-field_bytes (f ∷ fs) (v ∷ vs) h = omega (
  arith,
  length-append (le_bytes (size_of f.type) v) (field_bytes fs vs),
  length-le_bytes (size_of f.type) v,
  length-field_bytes fs vs (omega arith),
)

pub subscribe-fail :
    {os : Platform} (d : Definition) (multi_id : ℕ) (l : Inst os)
    → l.phase ≢ phase_data
    → subscribe os d log multi_id l ≡ (err wrong_phase, l)
unfolding subscribe
subscribe-fail d multi_id l e = require_phase-fail phase_data l _ e

module _ {os : Platform} (disk : IsFile os) (full : NeverShort os) where
  -- From a complete log in the definitions phase, on a file system as IsFile and NeverShort
  -- describe it, for a format string that fits: RegisterFormat adds the format message, or it
  -- returns ULOG_FILESYSTEM_ERROR with the old messages and that message or a beginning of it
  -- in the file.
  pub register_format_lem :
      (d : Definition) (l : Inst os) (t : ℕ) (ms : List Message)
      → l.phase ≡ phase_definitions
      → length (format_string d) < 2 ^ 16
      → Holds disk l t ms
      → Recorded disk l t ms (format (format_string d)) (register_format os d log l)
  unfolding register_format encode
  register_format_lem d l t ms p fits h = rw (require_phase-pass phase_definitions l _ p) (
      message-Recorded disk full l t ms (format (format_string d)) (length (format_string d)) _ refl
        fits h λ l'. save-Added disk full l' (format_string d))

  save_fields-Added :
      (fs : List Field) (vs : List ℕ) (l : Inst os)
      → Added disk (IsRefusal disk) l (field_bytes fs vs) (save_fields os fs vs l)
  unfolding save_fields pure
  save_fields-Added (f ∷ fs) (v ∷ vs) l =
      >>-Added disk (save os (le_bytes (size_of f.type) v)) (save_fields os fs vs)
        (save-Added disk full l (le_bytes (size_of f.type) v)) λ l'. save_fields-Added fs vs l'
  save_fields-Added _ _ l = whole refl (rw append-nil) (IsSame-refl disk l)

  -- From a complete log in the data phase, on a file system as IsFile and NeverShort describe
  -- it, for a struct with the fields of the definition and sizes that fit: Write adds a message
  -- with the message id and the members of the struct in their order, or it returns
  -- ULOG_FILESYSTEM_ERROR with the old messages and that message or a beginning of it in the
  -- file.
  pub write_lem :
      (d : Definition) (l : Inst os) (t : ℕ) (ms : List Message) (values : List ℕ) (msg_id : ℕ)
      → l.phase ≡ phase_data
      → length values ≡ length d.fields
      → 2 + sizes d.fields < 2 ^ 16
      → Holds disk l t ms
      → Recorded disk l t ms
          (logged msg_id (field_bytes d.fields values))
          (write os d log (some values) msg_id l)
  unfolding write encode
  write_lem d l t ms values msg_id p n fits h = rw (require_phase-pass phase_data l _ p) (
      message-Recorded disk full l t ms (logged msg_id (field_bytes d.fields values))
        (2 + sizes d.fields) _ (omega (arith, length-field_bytes d.fields values n)) fits h
        λ l'.
          >>-Added disk (save os (le_bytes 2 msg_id)) (save_fields os d.fields values)
            (save-Added disk full l' (le_bytes 2 msg_id))
            λ l''. save_fields-Added d.fields values l'')

  -- What `Subscribe` has done when it returns: a success gives out the next message id and moves on
  -- to the one after it; an error leaves it.
  pub data Subscribed (d : Definition) (multi_id : ℕ) (l : Inst os) (t : ℕ) (ms : List Message)
      (out : Result ErrorType ℕ × Inst os) : Type 0 where
    subscribed :
        out.0 ≡ ok l.next_msg_id
        → out.1.next_msg_id ≡ (l.next_msg_id + 1) % 2 ^ 16
        → out.1.phase ≡ l.phase
        → Holds disk out.1 t (ms ++ subscription multi_id l.next_msg_id d.name ∷ [])
        → Subscribed d multi_id l t ms out
    not_subscribed :
        out.0 ≡ err filesystem_error
        → Recorded disk l t ms
            (subscription multi_id l.next_msg_id d.name)
            (err filesystem_error, out.1)
        → Subscribed d multi_id l t ms out

  -- The writes of `Subscribe`.
  announce : Definition → ℕ → Exec (Inst os) ErrorType Unit
  announce d multi_id =
      save os (message_header b'A' (1 + 2 + length d.name))
      >> (save os (le_bytes 1 multi_id) >> (save_next_msg_id os >> save os d.name))

  announce-Added :
      (d : Definition) (multi_id : ℕ) (l : Inst os)
      → multi_id < 2 ^ 8
      → Added disk
          (IsRefusal disk)
          l
          (message_header b'A' (1 + 2 + length d.name)
            ++ multi_id ∷ le_bytes 2 l.next_msg_id
            ++ d.name)
          (announce d multi_id l)
  unfolding announce
  announce-Added d multi_id l h =
      let byte : multi_id % 256 ≡ multi_id = omega arith in
      rw byte (
        >>-Added_same disk (save os (message_header b'A' (1 + 2 + length d.name))) _
          (save-Added disk full l (message_header b'A' (1 + 2 + length d.name)))
          λ l' s.
            >>-Added_same disk (save os (multi_id ∷ [])) _ (save-Added disk full l' (multi_id ∷ []))
              λ l'' s'.
                >>-Added disk (save_next_msg_id os) (save os d.name)
                  (next l'' (s'.next_msg_id ∙ s.next_msg_id))
                  λ l'''. save-Added disk full l''' d.name)
    where
      next :
          (l'' : Inst os)
          → l''.next_msg_id ≡ l.next_msg_id
          → Added disk (IsRefusal disk) l'' (le_bytes 2 l.next_msg_id) (save_next_msg_id os l'')
      next l'' e =
          unfold save_next_msg_id in
          rw (← e) (save-Added disk full l'' (le_bytes 2 l''.next_msg_id))

  subscribe-announce :
      (d : Definition) (multi_id : ℕ) (l : Inst os)
      → l.phase ≡ phase_data
      → subscribe os d log multi_id l ≡ (announce d multi_id >> take_msg_id os) l
  unfolding subscribe announce require_phase ◌>>=◌
  subscribe-announce d multi_id l p = ground arith

  -- From a complete log in the data phase, on a file system as IsFile and NeverShort describe
  -- it, for a multi id of one byte and a name that fits: Subscribe adds the subscription with
  -- the next message id, gives that id out and moves on to the one after it modulo 2 ^ 16; or
  -- it returns ULOG_FILESYSTEM_ERROR, keeps the id, and the file has the old messages and the
  -- subscription or a beginning of it.
  pub subscribe_lem :
      (d : Definition) (multi_id : ℕ) (l : Inst os) (t : ℕ) (ms : List Message)
      → l.phase ≡ phase_data
      → multi_id < 2 ^ 8
      → 1 + 2 + length d.name < 2 ^ 16
      → Holds disk l t ms
      → Subscribed d multi_id l t ms (subscribe os d log multi_id l)
  subscribe_lem d multi_id l t ms p h8 fits h = rw (subscribe-announce d multi_id l p) (
      go (
        Added-Recorded disk l t ms m (unfold encode in omega arith) h (
          rw
            (← header-frame (encode m).kind (1 + 2 + length d.name) (encode m).payload
              (unfold encode in omega arith) fits)
            (unfold encode in announce-Added d multi_id l h8))))
    where
      m : Message
      m = subscription multi_id l.next_msg_id d.name

      go :
          Recorded disk l t ms m (announce d multi_id l)
          → Subscribed d multi_id l t ms ((announce d multi_id >> take_msg_id os) l)
      go (saved r e s) = rw (>>=-ok (announce d multi_id) (λ _. take_msg_id os) l r) (
          unfold take_msg_id in
          subscribed (ap ok s.next_msg_id) (ap (λ i. (i + 1) % 2 ^ 16) s.next_msg_id) s.phase e)
      go (saved_with_error r e s) =
          rw (>>=-err (announce d multi_id) (λ _. take_msg_id os) l r)
            (not_subscribed refl (saved_with_error refl e s))
      go (cut tail rest r c e s) =
          rw (>>=-err (announce d multi_id) (λ _. take_msg_id os) l r)
            (not_subscribed refl (cut tail rest refl c e s))
