-- ===== src/Ulog/Session/Ids.antt =====
-- Every stream of a log has a message id of its own.
use efc.Common.{
  ℕ, suc, ◌+◌, ◌%◌, ◌^◌, ◌≤◌, ◌<◌, ◌≡◌, ◌≢◌, sym, ap, ◌∙◌, List, [], ◌∷◌, ◌++◌, append_assoc,
  append-nil, some, All, from, from-append, arith,
}
use efc.Common.Exec.{err}
use efc.Ulog.Platform.{Platform, IsFile, NeverShort}
use efc.Ulog.Types.{filesystem_error, Inst}
use efc.Ulog.Message.{Message, subscription}
use efc.Ulog.Session.{Call, run, Journal, promise, promises, AllSized, Shows}
use efc.Ulog.Session.Step.{
  IsTyped, id_of, takes, Step, stays, enters, appends, subscribes, promise-Step,
}
use efc.Ulog.Session.ReadBack.{read_messages}
use efc.Ulog.Session.Refine.{run_refines}
use efc.Ulog.Session.RoundTrip.{IsJournal, journal_read_back}

-- The ids of the subscriptions among some messages, in their order.
abbrev pub ids : List Message → List ℕ
ids [] = []
ids (m ∷ ms) = id_of m ++ ids ms

-- How many ids some calls may take.
abbrev pub all_takes : List Call → ℕ
all_takes [] = 0
all_takes (c ∷ cs) = takes c + all_takes cs

-- The ids so far were given out one by one.
abbrev pub IsNumbered : Journal → Type 0
IsNumbered j = ids j.messages ≡ from 0 j.next_msg_id

ids-append : (ms : List Message) (m : Message) → ids (ms ++ m ∷ []) ≡ ids ms ++ id_of m
ids-append [] m = append-nil (id_of m)
ids-append (x ∷ ms) m =
    ap (λ l. id_of x ++ l) (ids-append ms m) ∙ sym (append_assoc (id_of x) (ids ms) (id_of m))

Step-IsNumbered :
    (c : Call) (j j' : Journal)
    → j.next_msg_id + takes c < 2 ^ 16
    → IsNumbered j
    → Step c j j'
    → IsNumbered j' × (j'.next_msg_id ≤ j.next_msg_id + takes c)
Step-IsNumbered c j j' small h (stays e) = rw e (h, omega arith)
Step-IsNumbered c j j' small h (enters p e) = rw e (h, omega arith)
Step-IsNumbered c j j' small h (appends m plain fine e) = rw e (
  ids-append j.messages m ∙ ap (λ l. ids j.messages ++ l) plain ∙ append-nil (ids j.messages) ∙ h,
  omega arith,
)
Step-IsNumbered c j j' small h (subscribes multi_id name one e) =
    let next : (j.next_msg_id + 1) % 2 ^ 16 ≡ j.next_msg_id + 1 = omega (arith, small, one) in
    let zero_left : 0 + j.next_msg_id ≡ j.next_msg_id = omega arith in
    let one_more : suc j.next_msg_id ≡ j.next_msg_id + 1 = omega arith in
    rw (e, next)
      (
        ids-append j.messages (subscription multi_id j.next_msg_id name)
            ∙ ap (λ l. l ++ j.next_msg_id ∷ []) h
            ∙ ap (λ m. from 0 j.next_msg_id ++ m ∷ []) (sym zero_left)
            ∙ from-append 0 j.next_msg_id
            ∙ ap (λ m. from 0 m) one_more,
        omega (arith, one),
      )

promises-IsNumbered :
    (cs : List Call) (j : Journal)
    → j.next_msg_id + all_takes cs < 2 ^ 16
    → IsNumbered j
    → IsNumbered (promises cs j).1
unfolding promises
promises-IsNumbered [] j small h = h
promises-IsNumbered (c ∷ cs) j small h =
    let (now, fewer) = Step-IsNumbered c j _ (omega (arith, small)) h (promise-Step c j) in
    promises-IsNumbered cs (promise c j).1 (omega (arith, small, fewer)) now

-- The bytes are a log with readable messages, whose subscriptions have the ids 0, 1, 2 and so on, n
-- of them.
pub record HasIds (bytes : List ℕ) (n : ℕ) : Type 0 where
  pub messages : List Message
  pub reads : read_messages bytes ≡ some messages
  pub numbered : ids messages ≡ from 0 n

-- For a sequence of calls of the log writer and of the generated code, whose buffers are as long
-- as stated, whose sizes fit their fields and whose tags, durations and message ids are 16 bits
-- wide, with fewer than 2 ^ 16 subscriptions in all, from a complete log that shows a journal of
-- well-formed messages with the ids given out one by one, on a file system as IsFile and
-- NeverShort describe it: if no call reports ULOG_FILESYSTEM_ERROR, then a reader of the file
-- finds subscriptions with the message ids 0, 1, 2 and so on in their order, as many as the next
-- message id of the log, so no two streams share an id.
pub subscription_ids :
    {os : Platform} (disk : IsFile os) (full : NeverShort os) (cs : List Call) (l : Inst os)
    (j : Journal)
    → AllSized cs
    → All IsTyped cs
    → IsJournal j
    → IsNumbered j
    → j.next_msg_id + all_takes cs < 2 ^ 16
    → Shows disk l j
    → All (λ r. r ≢ err filesystem_error) (run os cs l).0
    → HasIds (disk.written (run os cs l).1.file) (run os cs l).1.next_msg_id
subscription_ids disk full cs l j sized typed fine numbered small s ok_all =
    let shown = (run_refines disk full cs l j sized s ok_all).1 in
    record {
      messages = (promises cs j).1.messages;
      reads = journal_read_back disk full cs l j sized typed fine s ok_all;
      numbered =
          promises-IsNumbered cs j small numbered ∙ ap (λ n. from 0 n) (sym shown.next_msg_id);
    }
