-- ===== src/Ulog/Session/RoundTrip.antt =====
-- A reader of the file gets the journal back.
use efc.Common.{◌^◌, ◌<◌, ◌≡◌, ◌≢◌, ap, ◌∙◌, List, [], ◌∷◌, some, arith, All, All-append}
use efc.Common.Exec.{err}
use efc.Ulog.Platform.{Platform, IsFile, NeverShort}
use efc.Ulog.Types.{filesystem_error, Inst}
use efc.Ulog.Message.{subscription}
use efc.Ulog.Message.Decode.{IsWellFormed}
use efc.Ulog.Session.{Call, run, Journal, promise, promises, AllSized, Shows}
use efc.Ulog.Session.Step.{IsTyped, Step, stays, enters, appends, subscribes, promise-Step}
use efc.Ulog.Session.Refine.{run_refines}
use efc.Ulog.Session.ReadBack.{read_messages, read_messages_lem}

-- A journal whose numbers have the widths of the format.
pub record IsJournal (j : Journal) : Type 0 where
  pub next_msg_id : j.next_msg_id < 2 ^ 16
  pub messages : All IsWellFormed j.messages

Step-IsJournal : (c : Call) (j j' : Journal) → IsTyped c → IsJournal j → Step c j j' → IsJournal j'
Step-IsJournal c j j' t h (stays e) = rw e h
Step-IsJournal c j j' t h (enters p e) =
    rw e (record { next_msg_id = h.next_msg_id; messages = h.messages })
Step-IsJournal c j j' t h (appends m plain fine e) = rw e (record {
  next_msg_id = h.next_msg_id;
  messages = All-append IsWellFormed j.messages _ h.messages (fine t, tt);
})
Step-IsJournal c j j' t h (subscribes multi_id name one e) = rw e (record {
  next_msg_id = omega arith;
  messages =
      All-append IsWellFormed j.messages (subscription multi_id j.next_msg_id name ∷ []) h.messages
        (h.next_msg_id, tt);
})

promises-IsJournal :
    (cs : List Call) (j : Journal) → All IsTyped cs → IsJournal j → IsJournal (promises cs j).1
unfolding promises
promises-IsJournal [] j t h = h
promises-IsJournal (c ∷ cs) j (t, ts) h =
    promises-IsJournal cs (promise c j).1 ts (Step-IsJournal c j _ t h (promise-Step c j))

-- For a sequence of calls of the log writer and of the generated code, whose buffers are as long
-- as stated, whose sizes fit their fields and whose tags, durations and message ids are 16 bits
-- wide, from a complete log that shows a journal of well-formed messages, on a file system as
-- IsFile and NeverShort describe it: if no call reports ULOG_FILESYSTEM_ERROR, then a reader that
-- decodes the bytes of the file gets back exactly the messages that the journal promises, times
-- apart.
pub journal_read_back :
    {os : Platform} (disk : IsFile os) (full : NeverShort os) (cs : List Call) (l : Inst os)
    (j : Journal)
    → AllSized cs
    → All IsTyped cs
    → IsJournal j
    → Shows disk l j
    → All (λ r. r ≢ err filesystem_error) (run os cs l).0
    → read_messages (disk.written (run os cs l).1.file) ≡ some (promises cs j).1.messages
journal_read_back disk full cs l j sized typed fine s ok_all =
    let (rs, shown) = run_refines disk full cs l j sized s ok_all in
    let after = promises-IsJournal cs j typed fine in
    read_messages_lem _ shown.start_us shown.messages shown.holds (rw (shown.same) after.messages)
    ∙ ap (λ ms. some ms) shown.same
