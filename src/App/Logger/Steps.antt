-- ===== src/App/Logger/Steps.antt =====
-- The steps of the logger thread, each from a log that shows one journal to a log that shows the
-- next.
use efc.Common.{
  ℕ, ◌+◌, ◌^◌, ◌<◌, ◌≡◌, ◌≢◌, refl, ap, ◌∙◌, List, [], ◌∷◌, ◌++◌, map-append, length, arith, true,
  All-left, All-right, All-append,
}
use efc.Common.Exec.{ok, err}
use efc.Ulog.Platform.{Platform, IsFile, NeverShort}
use efc.Ulog.Types.{filesystem_error, phase_definitions, phase_data, log}
use efc.Ulog.Message.{Message, subscription}
use efc.Ulog.Generated
use efc.Ulog.Generated.Messages.{Subscribed, subscribed, not_subscribed, subscribe_lem}
use efc.Ulog.Session.{start_data_phase, Call, Journal, promise, promises, AllSized, Shows}
use efc.Ulog.Session.Refine.{run_refines}
use efc.App.Logger.{
  FloatUnit, PrimaryImu, mpu6050, icm42688p, definition_calls, Event, imu_chan, baro_chan,
  sync_chan, other_chan, wait_failed, MsgIds, loop_calls, Logger, Logging, do_calls, in_turn,
  subscribe_to, loop,
}
use efc.App.Logger.Log.{NoFault, bound, AllOk, Adds, loop_calls-Adds, loop_messages, streams}

pub definition_calls-AllSized : (imu : PrimaryImu) → AllSized (definition_calls imu)
definition_calls-AllSized imu = elim imu [ mpu6050 ↦ ground arith | icm42688p ↦ ground arith ]

loop_calls-AllSized : (fpu : FloatUnit) (es : List Event) → AllSized (loop_calls fpu streams es)
loop_calls-AllSized fpu [] = tt
loop_calls-AllSized fpu (wait_failed ∷ es) = tt
loop_calls-AllSized fpu (other_chan ∷ es) = loop_calls-AllSized fpu es
loop_calls-AllSized fpu (sync_chan ∷ es) = (tt, loop_calls-AllSized fpu es)
loop_calls-AllSized fpu (imu_chan msg ∷ es) =
    ((refl, omega arith), ((refl, omega arith), loop_calls-AllSized fpu es))
loop_calls-AllSized fpu (baro_chan msg ∷ es) =
    ((refl, omega arith), ((refl, omega arith), loop_calls-AllSized fpu es))

start_promise :
    (j : Journal)
    → j.phase ≡ phase_definitions
    → let out = promises (start_data_phase ∷ []) j in
      AllOk out.0 × (out.1 ≡ record j { phase = phase_data })
unfolding promises promise
start_promise j p =
    rw (bound phase_definitions j (record j { phase = phase_data }) p) ((refl, tt), refl)

module _ {os : Platform} (disk : IsFile os) (full : NeverShort os) where
  -- All calls succeeded, and the log shows a journal.
  pub record Done (out : Logging os) (j : Journal) (ids : MsgIds) : Type 0 where
    pub all_ok : AllOk out.0
    pub shows : Shows disk out.1.ulog_log j
    pub ids_are : out.1.msg_ids ≡ ids

  -- A step that is done from any state that shows `j` with the message ids `ids`.
  unfoldable pub Takes : (Logger os → Logging os) → Journal → MsgIds → Journal → MsgIds → Type 0
  Takes f j ids j' ids' =
      (w : Logger os)
      → Shows disk w.ulog_log j
      → w.msg_ids ≡ ids
      → NoFault (f w).0
      → Done (f w) j' ids'

  pub chain :
      (f g : Logger os → Logging os) (j j' j'' : Journal) (ids ids' ids'' : MsgIds)
      → Takes f j ids j' ids'
      → Takes g j' ids' j'' ids''
      → Takes (in_turn os f g) j ids j'' ids''
  unfolding Takes
  chain f g j j' j'' ids ids' ids'' first second w s i h =
      let a = first w s i (All-left (λ r. r ≢ err filesystem_error) (f w).0 (g (f w).1).0 h) in
      let b =
        second (f w).1 a.shows a.ids_are
          (All-right (λ r. r ≢ err filesystem_error) (f w).0 (g (f w).1).0 h) in
      record {
        all_ok = All-append (λ r. r ≡ ok tt) (f w).0 (g (f w).1).0 a.all_ok b.all_ok;
        shows = b.shows;
        ids_are = b.ids_are;
      }

  pub calls-Takes :
      (cs : List Call) (j : Journal) (ids : MsgIds) (ms : List Message)
      → AllSized cs
      → Adds cs j.phase ms
      → Takes (do_calls os cs) j ids (record j { messages = j.messages ++ ms }) ids
  unfolding Takes do_calls
  calls-Takes cs j ids ms sized adds w s i h =
      let done = run_refines disk full cs w.ulog_log j sized s h in
      let added = adds.added j refl in
      record { all_ok = rw done.0 added.0; shows = rw added.1 at done.1; ids_are = i }

  pub start-Takes :
      (j : Journal) (ids : MsgIds)
      → j.phase ≡ phase_definitions
      → Takes (do_calls os (start_data_phase ∷ [])) j ids (record j { phase = phase_data }) ids
  unfolding Takes do_calls
  start-Takes j ids p w s i h =
      let done = run_refines disk full (start_data_phase ∷ []) w.ulog_log j (tt, tt) s h in
      let added = start_promise j p in
      record { all_ok = rw done.0 added.0; shows = rw added.1 at done.1; ids_are = i }

  pub subscribe-Takes :
      (d : Generated.Definition) (set : ℕ → MsgIds → MsgIds) (n : ℕ) (ms : List Message)
      (ids : MsgIds)
      → n + 1 < 2 ^ 16
      → 1 + 2 + length d.name < 2 ^ 16
      → Takes
          (subscribe_to os d set)
          (record { phase = phase_data; next_msg_id = n; messages = ms })
          ids
          (record {
            phase = phase_data;
            next_msg_id = n + 1;
            messages = ms ++ subscription 0 n d.name ∷ [];
          })
          (set n ids)
  unfolding Takes subscribe_to
  subscribe-Takes d set n ms ids hn fits w s i h = go (
      subscribe_lem disk full d 0 w.ulog_log s.start_us s.messages s.phase (omega arith) fits
        s.holds)
    where
      go :
          Subscribed disk full d 0 w.ulog_log s.start_us s.messages
            (Generated.subscribe os d log 0 w.ulog_log)
          → Done
              (subscribe_to os d set w)
              (record {
                phase = phase_data;
                next_msg_id = n + 1;
                messages = ms ++ subscription 0 n d.name ∷ [];
              })
              (set n ids)
      go (subscribed r k ph e) = record {
        all_ok = (rw r refl, tt);
        shows = record {
          phase = ph ∙ s.phase;
          next_msg_id = omega (arith, k, s.next_msg_id);
          start_us = s.start_us;
          messages = s.messages ++ subscription 0 w.ulog_log.next_msg_id d.name ∷ [];
          holds = e;
          same = rw (map-append, s.same, s.next_msg_id) refl;
        };
        ids_are = rw (r, s.next_msg_id, i) refl;
      }
      go (not_subscribed r rest) = absurd (h.0 (rw r refl))

  pub loop-Takes :
      (fpu : FloatUnit) (es : List Event) (j : Journal)
      → j.phase ≡ phase_data
      → Takes
          (loop os fpu es)
          j
          streams
          (record j { messages = j.messages ++ loop_messages fpu es })
          streams
  unfolding Takes loop
  loop-Takes fpu es j p w s i h =
      let known : loop os fpu es w
          ≡ do_calls os (loop_calls fpu streams es) (record w { enabled = true }) =
        ap (λ ids. do_calls os (loop_calls fpu ids es) (record w { enabled = true })) i in
      rw known (
        calls-Takes (loop_calls fpu streams es) j streams (loop_messages fpu es)
          (loop_calls-AllSized fpu es) (rw p (loop_calls-Adds fpu es)) (record w { enabled = true })
          s i (rw known at h))
