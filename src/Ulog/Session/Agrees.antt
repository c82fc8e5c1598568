-- ===== src/Ulog/Session/Agrees.antt =====
-- When the result of a call and the log that it leaves agree with a promise of the journal, and what
-- a call that tests its arguments or the phase first does then.
use mathlib.Core.Logic.{if_pos, if_neg}
use efc.Common.{
  ℕ, ◌+◌, ◌%◌, ◌^◌, ◌<◌, ◌≡◌, ◌≢◌, refl, sym, ap, ◌∙◌, [], ◌∷◌, ◌++◌, length, map-append,
}
use efc.Common.Exec.{Result, ok, err, Exec, pure, raise, >>=-ok, >>=-err}
use efc.Ulog.Platform.{Platform, IsFile, NeverShort}
use efc.Ulog.Types.{
  ErrorType, invalid_param, wrong_phase, filesystem_error, Phase, phase_definitions, phase_data,
  Inst, log,
}
use efc.Ulog.Message.{Message, subscription}
use efc.Ulog.Recorded.{Recorded, saved, saved_with_error, cut}
use efc.Ulog.Api
use efc.Ulog.Api.{require_phase}
use efc.Ulog.Api.Messages.{require_phase-pass, require_phase-fail}
use efc.Ulog.Generated
use efc.Ulog.Generated.Messages.{
  subscribe_lem, subscribe-fail, Subscribed, subscribed, not_subscribed,
}
use efc.Ulog.Session.{
  subscribe, perform, Journal, Phase-discrete, append_to, only_in, promise, untimed, Shows,
}

module _ {os : Platform} (disk : IsFile os) where
  -- The same result, and a log that shows the promised journal.
  pub record Agrees (out : Result ErrorType Unit × Inst os)
      (promised : Result ErrorType Unit × Journal) : Type 0 where
    pub result : out.0 ≡ promised.0
    pub shows : Shows disk out.1 promised.1

  pub Recorded-Agrees :
      (l : Inst os) (j : Journal) (s : Shows disk l j) (m : Message)
      (out : Result ErrorType Unit × Inst os)
      → Recorded disk l s.start_us s.messages m out
      → out.0 ≢ err filesystem_error
      → Agrees out (ok tt, append_to j (untimed m))
  Recorded-Agrees l j s m out (saved r h same) ne = record {
    result = r;
    shows = record {
      phase = same.phase ∙ s.phase;
      next_msg_id = same.next_msg_id ∙ s.next_msg_id;
      start_us = s.start_us;
      messages = s.messages ++ m ∷ [];
      holds = h;
      same = rw (map-append, s.same);
    };
  }
  Recorded-Agrees l j s m out (saved_with_error r h same) ne = absurd (ne r)
  Recorded-Agrees l j s m out (cut tail rest r c h same) ne = absurd (ne r)

  -- A call that tests the phase first keeps its promise if it does so in that phase.
  pub guarded :
      (phase : Phase) (l : Inst os) (j j' : Journal) (out : Result ErrorType Unit × Inst os)
      → Shows disk l j
      → (l.phase ≡ phase → Agrees out (ok tt, j'))
      → (l.phase ≢ phase → out ≡ (err wrong_phase, l))
      → Agrees out (only_in phase j j')
  guarded phase l j j' out s pass fail = elim (Phase-discrete j.phase phase) [
    | yes e ↦ rw (if_pos (Phase-discrete j.phase phase) e) (pass (s.phase ∙ e))
    | no d ↦
        rw (if_neg (Phase-discrete j.phase phase) d, fail (λ e. d (sym s.phase ∙ e)))
          (record { result = refl; shows = s })
  ]

  pub refused :
      (l : Inst os) (j : Journal)
      → Shows disk l j
      → Agrees (raise invalid_param l) (err invalid_param, j)
  unfolding raise
  refused l j s = record { result = refl; shows = s }

  pub start_data_phase-Agrees :
      (l : Inst os) (j : Journal)
      → Shows disk l j
      → Agrees
          (Api.start_data_phase os l)
          (only_in phase_definitions j (record j { phase = phase_data }))
  unfolding Api.start_data_phase
  start_data_phase-Agrees l j s =
      guarded phase_definitions l j (record j { phase = phase_data }) _ s
        (λ p. rw (require_phase-pass phase_definitions l _ p) (record {
          result = refl;
          shows = record {
            phase = refl;
            next_msg_id = s.next_msg_id;
            start_us = s.start_us;
            messages = s.messages;
            holds = s.holds;
            same = s.same;
          };
        }))
        (λ d. require_phase-fail phase_definitions l _ d)

  module _ (full : NeverShort os) where
    pub subscribe-Agrees :
        (d : Generated.Definition) (multi_id : ℕ) (l : Inst os) (j : Journal)
        → (multi_id < 2 ^ 8) × (1 + 2 + length d.name < 2 ^ 16)
        → Shows disk l j
        → (perform os (subscribe d log multi_id) l).0 ≢ err filesystem_error
        → Agrees (perform os (subscribe d log multi_id) l) (promise (subscribe d log multi_id) j)
    unfolding perform promise
    subscribe-Agrees d multi_id l j (h8, fits) s ne =
        guarded phase_data l j _ _ s
          (λ p. go (subscribe_lem disk full d multi_id l s.start_us s.messages p h8 fits s.holds))
          (λ e. rw (
            >>=-err call (λ _. pure tt) l (ap (λ o. o.0) (subscribe-fail d multi_id l e)),
            subscribe-fail d multi_id l e,
          ))
      where
        call : Exec (Inst os) ErrorType ℕ
        call = Generated.subscribe os d log multi_id

        go :
            Subscribed disk full d multi_id l s.start_us s.messages
              (Generated.subscribe os d log multi_id l)
            → Agrees (perform os (subscribe d log multi_id) l) (
              ok tt,
              record j {
                messages = j.messages ++ subscription multi_id j.next_msg_id d.name ∷ [];
                next_msg_id = (j.next_msg_id + 1) % 2 ^ 16;
              },
            )
        go (subscribed r i ph h) = rw (>>=-ok call (λ _. pure tt) l r) (
            unfold pure in
            record {
              result = refl;
              shows = record {
                phase = ph ∙ s.phase;
                next_msg_id = rw (i, s.next_msg_id);
                start_us = s.start_us;
                messages = s.messages ++ subscription multi_id l.next_msg_id d.name ∷ [];
                holds = h;
                same = rw (map-append, s.same, s.next_msg_id);
              };
            })
        go (not_subscribed r rest) = absurd (ne (ap (λ o. o.0) (>>=-err call (λ _. pure tt) l r)))
