-- ===== src/Ulog/Session/Refine.antt =====
-- The writer keeps its promises as long as the file system does not fail.
use efc.Common.{◌≡◌, ◌≢◌, refl, List, [], ◌∷◌, none, some, take, All, ap₂}
use efc.Common.Exec.{err, ◌>>=◌}
use efc.Ulog.Platform.{Platform, IsFile, NeverShort}
use efc.Ulog.Types.{filesystem_error, phase_definitions, phase_data, Inst, null, log}
use efc.Ulog.Message.{format, info, parameter, dropout, synchronized}
use efc.Ulog.Api
use efc.Ulog.Api.{require_phase}
use efc.Ulog.Api.Messages.{require_phase-fail, add_info_lem, add_parameter_lem, log_dropout_lem}
use efc.Ulog.Api.Strings.{log_string_lem, log_tagged_string_lem}
use efc.Ulog.Api.Closing.{sync_lem}
use efc.Ulog.Generated
use efc.Ulog.Generated.Messages.{register_format_lem, write_lem}
use efc.Ulog.Session.{
  Call, add_info, add_parameter, start_data_phase, log_string, log_tagged_string, log_dropout, sync,
  register_format, subscribe, write, perform, run, Journal, promise, promises, IsSized, AllSized,
  Shows,
}
use efc.Ulog.Session.Agrees.{
  Agrees, Recorded-Agrees, guarded, refused, start_data_phase-Agrees, subscribe-Agrees,
}

module _ {os : Platform} (disk : IsFile os) (full : NeverShort os) where
  -- Each call of a client that owes it no length, on a log that shows a journal.
  perform-Agrees :
      (c : Call) (l : Inst os) (j : Journal)
      → IsSized c
      → Shows disk l j
      → (perform os c l).0 ≢ err filesystem_error
      → Agrees disk (perform os c l) (promise c j)
  unfolding perform promise
  perform-Agrees (add_info log (some key) key_len (some val) val_len) l j (hk, hv, k8, fits) s ne =
      guarded disk phase_definitions l j _ _ s
        (λ p.
          Recorded-Agrees disk l j s (info (take key_len key) (take val_len val)) _
            (add_info_lem disk full l s.start_us s.messages key key_len val val_len p hk hv k8 fits
              s.holds)
            ne)
        (λ d. unfold Api.add_info in require_phase-fail phase_definitions l _ d)
  perform-Agrees (add_info log (some key) key_len none val_len) l j h s ne =
      unfold Api.add_info in refused disk l j s
  perform-Agrees (add_info log none key_len val val_len) l j h s ne =
      unfold Api.add_info in refused disk l j s
  perform-Agrees (add_info null key key_len val val_len) l j h s ne =
      unfold Api.add_info in refused disk l j s
  perform-Agrees (add_parameter log (some key) key_len (some val)) l j (hk, hv, k8) s ne =
      Recorded-Agrees disk l j s (parameter (take key_len key) (take 4 val)) _
        (add_parameter_lem disk full l s.start_us s.messages key key_len val hk hv k8 s.holds) ne
  perform-Agrees (add_parameter log (some key) key_len none) l j h s ne =
      unfold Api.add_parameter in refused disk l j s
  perform-Agrees (add_parameter log none key_len val) l j h s ne =
      unfold Api.add_parameter in refused disk l j s
  perform-Agrees (add_parameter null key key_len val) l j h s ne =
      unfold Api.add_parameter in refused disk l j s
  perform-Agrees start_data_phase l j h s ne = start_data_phase-Agrees disk l j s
  perform-Agrees (log_string log (some string) len level) l j (hl, fits) s ne =
      guarded disk phase_data l j _ _ s
        (λ p.
          let r =
            log_string_lem disk full l s.start_us s.messages string len level p hl fits s.holds in
          Recorded-Agrees disk l j s _ _ r.recorded ne)
        (λ d. unfold Api.log_string in require_phase-fail phase_data l _ d)
  perform-Agrees (log_string log none len level) l j h s ne =
      unfold Api.log_string in refused disk l j s
  perform-Agrees (log_string null string len level) l j h s ne =
      unfold Api.log_string in refused disk l j s
  perform-Agrees (log_tagged_string log (some string) len level tag) l j (hl, fits) s ne =
      guarded disk phase_data l j _ _ s
        (λ p.
          let r =
            log_tagged_string_lem disk full l s.start_us s.messages string len level tag p hl fits
              s.holds in
          Recorded-Agrees disk l j s _ _ r.recorded ne)
        (λ d. unfold Api.log_tagged_string in require_phase-fail phase_data l _ d)
  perform-Agrees (log_tagged_string log none len level tag) l j h s ne =
      unfold Api.log_tagged_string in refused disk l j s
  perform-Agrees (log_tagged_string null string len level tag) l j h s ne =
      unfold Api.log_tagged_string in refused disk l j s
  perform-Agrees (log_dropout log duration_ms) l j h s ne =
      guarded disk phase_data l j _ _ s
        (λ p.
          Recorded-Agrees disk l j s (dropout duration_ms) _
            (log_dropout_lem disk full l s.start_us s.messages duration_ms p s.holds) ne)
        (λ d. unfold Api.log_dropout in require_phase-fail phase_data l _ d)
  perform-Agrees (log_dropout null duration_ms) l j h s ne =
      unfold Api.log_dropout in refused disk l j s
  perform-Agrees (sync log) l j h s ne =
      guarded disk phase_data l j _ _ s
        (λ p.
          Recorded-Agrees disk l j s synchronized _
            (sync_lem disk full l s.start_us s.messages p s.holds) ne)
        (λ d. unfold Api.sync in require_phase-fail phase_data l _ d)
  perform-Agrees (sync null) l j h s ne = unfold Api.sync in refused disk l j s
  perform-Agrees (register_format d log) l j fits s ne =
      guarded disk phase_definitions l j _ _ s
        (λ p.
          Recorded-Agrees disk l j s (format (Generated.format_string d)) _
            (register_format_lem disk full d l s.start_us s.messages p fits s.holds) ne)
        (λ e. unfold Generated.register_format in require_phase-fail phase_definitions l _ e)
  perform-Agrees (register_format d null) l j h s ne =
      unfold Generated.register_format in refused disk l j s
  perform-Agrees (subscribe d log multi_id) l j h s ne =
      subscribe-Agrees disk full d multi_id l j h s ne
  perform-Agrees (subscribe d null multi_id) l j h s ne =
      unfold Generated.subscribe ◌>>=◌ in refused disk l j s
  perform-Agrees (write d log (some values) msg_id) l j (n, fits) s ne =
      guarded disk phase_data l j _ _ s
        (λ p.
          Recorded-Agrees disk l j s _ _
            (write_lem disk full d l s.start_us s.messages values msg_id p n fits s.holds) ne)
        (λ e. unfold Generated.write in require_phase-fail phase_data l _ e)
  perform-Agrees (write d log none msg_id) l j h s ne = unfold Generated.write in refused disk l j s
  perform-Agrees (write d null values msg_id) l j h s ne =
      unfold Generated.write in refused disk l j s

  -- For a sequence of calls of the log writer and of the generated code, in any phase and with
  -- NULL among the pointers, whose buffers are as long as stated and whose sizes fit their
  -- fields, from a complete log that shows a journal, on a file system as IsFile and NeverShort
  -- describe it: if no call reports ULOG_FILESYSTEM_ERROR, then every call returns what the
  -- journal promises, and the file stays a complete log with the messages of the journal, times
  -- apart.
  pub run_refines :
      (cs : List Call) (l : Inst os) (j : Journal)
      → AllSized cs
      → Shows disk l j
      → All (λ r. r ≢ err filesystem_error) (run os cs l).0
      → ((run os cs l).0 ≡ (promises cs j).0) × Shows disk (run os cs l).1 (promises cs j).1
  unfolding run promises
  run_refines [] l j h s ok_all = (refl, s)
  run_refines (c ∷ cs) l j (hc, hs) s (ne, rest) =
      let a = perform-Agrees c l j hc s ne in
      let (rs, shown) = run_refines cs (perform os c l).1 (promise c j).1 hs a.shows rest in
      (ap₂ ◌∷◌ a.result rs, shown)
