-- ===== src/Ulog/Session/Pretends.antt =====
-- What it means that a call keeps the journal's promise but for the file, and the calls that test the
-- phase first.
use mathlib.Core.Logic.{if_pos, if_neg}
use efc.Common.{ℕ, ◌+◌, ◌%◌, ◌^◌, ◌≡◌, ◌≢◌, refl, sym, ap, ◌∙◌, List, [], ◌∷◌}
use efc.Common.Exec.{Result, ok, err, Exec, pure, raise, ◌>>◌, >>=-ok, >>=-err}
use efc.Ulog.Platform.{Platform, IsFile}
use efc.Ulog.Types.{
  ErrorType, invalid_param, wrong_phase, filesystem_error, Phase, phase_definitions, phase_data,
  Inst, log,
}
use efc.Ulog.Api
use efc.Ulog.Api.{require_phase}
use efc.Ulog.Api.Messages.{require_phase-pass, require_phase-fail}
use efc.Ulog.Generated
use efc.Ulog.Generated.{save_fields, Field}
use efc.Ulog.Generated.Messages.{subscribe-fail}
use efc.Ulog.Session.{subscribe, perform, Journal, Phase-discrete, only_in, promise}
use efc.Ulog.FullDisk.{
  IsFull, Vain, Leads, >>=-Leads, or_return-Leads, save-Leads, save->>, pure-Leads,
  write_sync-Leads,
}

module _ {os : Platform} (disk : IsFile os) (brim : IsFull os) where
  -- The log stands where the journal does, on a full disk.
  pub record Stands (l : Inst os) (j : Journal) : Type 0 where
    pub full : brim.Full l.file
    pub phase : l.phase ≡ j.phase
    pub next_msg_id : l.next_msg_id ≡ j.next_msg_id

  -- The promised result, and a log that stands where promised, with the file of `l`.
  pub record Pretends (l : Inst os) (out : Result ErrorType Unit × Inst os)
      (promised : Result ErrorType Unit × Journal) : Type 0 where
    pub result : out.0 ≡ promised.0
    pub stands : Stands out.1 promised.1
    pub same : disk.written out.1.file ≡ disk.written l.file

  pub refused :
      (l : Inst os) (j : Journal)
      → Stands l j
      → Pretends l (raise invalid_param l) (err invalid_param, j)
  unfolding raise
  refused l j s = record { result = refl; stands = s; same = refl }

  -- What runs in vain keeps a promise that gives the same id and phase.
  pub led :
      (m : Exec (Inst os) ErrorType Unit) (l : Inst os) (j j' : Journal)
      → Stands l j
      → j'.phase ≡ j.phase
      → Leads disk brim j.next_msg_id j'.next_msg_id m tt
      → Pretends l (m l) (ok tt, j')
  led m l j j' s p h =
      let v = h l s.full s.next_msg_id in
      record {
        result = v.result;
        stands = record {
          full = v.full;
          phase = v.phase ∙ s.phase ∙ sym p;
          next_msg_id = v.next_msg_id;
        };
        same = v.same;
      }

  guarded :
      (phase : Phase) (l : Inst os) (j j' : Journal) (out : Result ErrorType Unit × Inst os)
      → Stands l j
      → (l.phase ≡ phase → Pretends l out (ok tt, j'))
      → (l.phase ≢ phase → out ≡ (err wrong_phase, l))
      → Pretends l out (only_in phase j j')
  guarded phase l j j' out s pass fail = elim (Phase-discrete j.phase phase) [
    | yes e ↦ rw (if_pos (Phase-discrete j.phase phase) e) (pass (s.phase ∙ e))
    | no d ↦
        rw (if_neg (Phase-discrete j.phase phase) d, fail (λ e. d (sym s.phase ∙ e)))
          (record { result = refl; stands = s; same = refl })
  ]

  -- A call that tests the phase and then writes a message.
  pub checked :
      (phase : Phase) (rest : Exec (Inst os) ErrorType Unit) (l : Inst os) (j j' : Journal)
      → Stands l j
      → j'.phase ≡ j.phase
      → Leads disk brim j.next_msg_id j'.next_msg_id rest tt
      → Pretends l ((require_phase os phase >> rest) l) (only_in phase j j')
  checked phase rest l j j' s p h =
      guarded phase l j j' _ s (λ e. rw (require_phase-pass phase l rest e) (led rest l j j' s p h))
        (λ d. require_phase-fail phase l rest d)

  pub save_fields-Leads :
      {n : ℕ} (fs : List Field) (vs : List ℕ) → Leads disk brim n n (save_fields os fs vs) tt
  unfolding save_fields
  save_fields-Leads (f ∷ fs) (v ∷ vs) = save->> disk brim _ _ (save_fields-Leads fs vs)
  save_fields-Leads (f ∷ fs) [] = pure-Leads disk brim tt
  save_fields-Leads [] vs = pure-Leads disk brim tt

  pub sync-Pretends :
      (l : Inst os) (j j' : Journal)
      → Stands l j
      → j'.phase ≡ j.phase
      → j'.next_msg_id ≡ j.next_msg_id
      → Pretends l (Api.sync os log l) (only_in phase_data j j')
  unfolding Api.sync
  sync-Pretends l j j' s p i = checked phase_data _ l j j' s p (
      >>=-Leads disk brim _ _
        (or_return-Leads disk brim _ filesystem_error (write_sync-Leads disk brim))
        (λ l' full e. record {
          result = rw (brim.flushed l'.file full) refl;
          phase = refl;
          next_msg_id = e ∙ sym i;
          same = disk.synced l'.file;
          full = brim.sync_stays l'.file full;
        }))

  pub start_data_phase-Pretends :
      (l : Inst os) (j : Journal)
      → Stands l j
      → Pretends l
          (Api.start_data_phase os l)
          (only_in phase_definitions j (record j { phase = phase_data }))
  unfolding Api.start_data_phase
  start_data_phase-Pretends l j s =
      guarded phase_definitions l j (record j { phase = phase_data }) _ s
        (λ e. rw (require_phase-pass phase_definitions l _ e) (record {
          result = refl;
          stands = record { full = s.full; phase = refl; next_msg_id = s.next_msg_id };
          same = refl;
        }))
        (λ d. require_phase-fail phase_definitions l _ d)

  -- The id is given out although the subscription is not in the file.
  subscribe-Vain :
      (d : Generated.Definition) (multi_id : ℕ) (l : Inst os) (n : ℕ)
      → brim.Full l.file
      → l.next_msg_id ≡ n
      → l.phase ≡ phase_data
      → Vain disk brim l ((n + 1) % 2 ^ 16) n (Generated.subscribe os d log multi_id l)
  unfolding Generated.subscribe pure
  subscribe-Vain d multi_id l n full i e = rw (require_phase-pass phase_data l _ e) (
      save->> disk brim _ _
        (save->> disk brim _ _ (
          >>=-Leads disk brim _ _ (λ l'. save-Leads disk brim _ l')
            (save->> disk brim _ _ (λ l' f e'. record {
              result = ap (λ k. ok k) e';
              phase = refl;
              next_msg_id = ap (λ k. (k + 1) % 2 ^ 16) e';
              same = refl;
              full = f;
            }))))
        l full i)

  pub subscribe-Pretends :
      (d : Generated.Definition) (multi_id : ℕ) (l : Inst os) (j : Journal)
      → Stands l j
      → Pretends l (perform os (subscribe d log multi_id) l) (promise (subscribe d log multi_id) j)
  unfolding perform promise pure
  subscribe-Pretends d multi_id l j s =
      let call = Generated.subscribe os d log multi_id in
      guarded phase_data l j _ _ s
        (λ e.
          let v = subscribe-Vain d multi_id l j.next_msg_id s.full s.next_msg_id e in
          rw (>>=-ok call (λ _. pure tt) l v.result) (record {
            result = refl;
            stands = record {
              full = v.full;
              phase = v.phase ∙ s.phase;
              next_msg_id = v.next_msg_id;
            };
            same = v.same;
          }))
        (λ e. rw (
          >>=-err call (λ _. pure tt) l (ap (λ o. o.0) (subscribe-fail d multi_id l e)),
          subscribe-fail d multi_id l e,
        ))
