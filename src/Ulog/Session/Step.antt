-- ===== src/Ulog/Session/Step.antt =====
-- What a promise makes of a journal.
use mathlib.Core.Path.{subst}
use mathlib.Core.Logic.{if_pos, if_neg}
use efc.Common.{ℕ, ◌+◌, ◌%◌, ◌^◌, ◌<◌, ◌≡◌, ◌≢◌, refl, sym, List, [], ◌∷◌, ◌++◌, none, some, arith}
use efc.Common.Exec.{ok, err}
use efc.Ulog.Types.{wrong_phase, Phase, phase_definitions, phase_data, null, log}
use efc.Ulog.Message.{Message, subscription}
use efc.Ulog.Message.Decode.{IsWellFormed}
use efc.Ulog.Session.{
  Call, add_info, add_parameter, start_data_phase, log_string, log_tagged_string, log_dropout, sync,
  register_format, subscribe, write, Journal, Phase-discrete, append_to, only_in, promise,
}

-- The widths of the arguments in C: a tag, a duration and a message id are `uint16_t`.
abbrev pub IsTyped : Call → Type 0
IsTyped (log_tagged_string log string len level tag) = tag < 2 ^ 16
IsTyped (log_dropout log duration_ms) = duration_ms < 2 ^ 16
IsTyped (write d log values msg_id) = msg_id < 2 ^ 16
IsTyped _ = Unit {0}

-- The message id that a message gives out.
abbrev pub id_of : Message → List ℕ
id_of (subscription multi_id msg_id name) = msg_id ∷ []
id_of _ = []

-- How many ids a call may take.
abbrev pub takes : Call → ℕ
takes (subscribe d p multi_id) = 1
takes _ = 0

pub data Step (c : Call) (j j' : Journal) : Type 0 where
  stays : j' ≡ j → Step c j j'
  enters : (p : Phase) → j' ≡ record j { phase = p } → Step c j j'
  appends :
      (m : Message) → id_of m ≡ [] → (IsTyped c → IsWellFormed m) → j' ≡ append_to j m → Step c j j'
  subscribes :
      (multi_id : ℕ) (name : List ℕ)
      → takes c ≡ 1
      → j' ≡ record j {
        messages = j.messages ++ subscription multi_id j.next_msg_id name ∷ [];
        next_msg_id = (j.next_msg_id + 1) % 2 ^ 16;
      }
      → Step c j j'

only_in-Step : (c : Call) (p : Phase) (j j' : Journal) → Step c j j' → Step c j (only_in p j j').1
only_in-Step c p j j' s = elim (Phase-discrete j.phase p) [
  | yes e ↦ subst (λ o. Step c j o.1) (sym (allowed e)) s
  | no d ↦ subst (λ o. Step c j o.1) (sym (forbidden d)) (stays refl)
]
  where
    allowed : j.phase ≡ p → only_in p j j' ≡ (ok tt, j')
    allowed e = if_pos (Phase-discrete j.phase p) e (ok tt, j') (err wrong_phase, j)

    forbidden : j.phase ≢ p → only_in p j j' ≡ (err wrong_phase, j)
    forbidden d = if_neg (Phase-discrete j.phase p) d (ok tt, j') (err wrong_phase, j)

pub promise-Step : (c : Call) (j : Journal) → Step c j (promise c j).1
unfolding promise
promise-Step (add_info log (some key) key_len (some val) val_len) j =
    only_in-Step _ phase_definitions j _ (appends _ refl (λ t. tt) refl)
promise-Step (add_info log (some key) key_len none val_len) j = stays refl
promise-Step (add_info log none key_len val val_len) j = stays refl
promise-Step (add_info null key key_len val val_len) j = stays refl
promise-Step (add_parameter log (some key) key_len (some val)) j = appends _ refl (λ t. tt) refl
promise-Step (add_parameter log (some key) key_len none) j = stays refl
promise-Step (add_parameter log none key_len val) j = stays refl
promise-Step (add_parameter null key key_len val) j = stays refl
promise-Step start_data_phase j = only_in-Step _ phase_definitions j _ (enters phase_data refl)
promise-Step (log_string log (some string) len level) j =
    only_in-Step _ phase_data j _ (appends _ refl (λ t. omega arith) refl)
promise-Step (log_string log none len level) j = stays refl
promise-Step (log_string null string len level) j = stays refl
promise-Step (log_tagged_string log (some string) len level tag) j =
    only_in-Step _ phase_data j _ (appends _ refl (λ t. (t, omega arith)) refl)
promise-Step (log_tagged_string log none len level tag) j = stays refl
promise-Step (log_tagged_string null string len level tag) j = stays refl
promise-Step (log_dropout log duration_ms) j =
    only_in-Step _ phase_data j _ (appends _ refl (λ t. t) refl)
promise-Step (log_dropout null duration_ms) j = stays refl
promise-Step (sync log) j = only_in-Step _ phase_data j _ (appends _ refl (λ t. tt) refl)
promise-Step (sync null) j = stays refl
promise-Step (register_format d log) j =
    only_in-Step _ phase_definitions j _ (appends _ refl (λ t. tt) refl)
promise-Step (register_format d null) j = stays refl
promise-Step (subscribe d log multi_id) j =
    only_in-Step _ phase_data j _ (subscribes multi_id d.name refl refl)
promise-Step (subscribe d null multi_id) j = stays refl
promise-Step (write d log (some values) msg_id) j =
    only_in-Step _ phase_data j _ (appends _ refl (λ t. t) refl)
promise-Step (write d log none msg_id) j = stays refl
promise-Step (write d null values msg_id) j = stays refl
