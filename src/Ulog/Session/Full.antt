-- ===== src/Ulog/Session/Full.antt =====
-- A log on a disk that is full: every call does as if it were not.
use efc.Common.{◌≡◌, refl, ap₂, ◌∙◌, List, [], ◌∷◌, none, some}
use efc.Common.Exec.{◌>>=◌}
use efc.Ulog.Platform.{Platform, IsFile}
use efc.Ulog.Types.{phase_definitions, phase_data, Inst, null, log}
use efc.Ulog.Api
use efc.Ulog.Api.{require_phase}
use efc.Ulog.Generated
use efc.Ulog.Generated.{save_fields, Field}
use efc.Ulog.Session.{
  Call, add_info, add_parameter, start_data_phase, log_string, log_tagged_string, log_dropout, sync,
  register_format, subscribe, write, perform, run, Journal, promise, promises,
}
use efc.Ulog.FullDisk.{IsFull, save-Leads, save->>, uptime_us-Leads}
use efc.Ulog.Session.Pretends.{
  Stands, Pretends, refused, led, checked, save_fields-Leads, sync-Pretends,
  start_data_phase-Pretends, subscribe-Pretends,
}

module _ {os : Platform} (disk : IsFile os) (brim : IsFull os) where
  perform-Pretends :
      (c : Call) (l : Inst os) (j : Journal)
      → Stands disk brim l j
      → Pretends disk brim l (perform os c l) (promise c j)
  unfolding perform promise
  perform-Pretends (add_info log (some key) key_len (some val) val_len) l j s =
      unfold Api.add_info in
      checked disk brim phase_definitions _ l j _ s refl (
        save->> disk brim _ _
          (save->> disk brim _ _ (save->> disk brim _ _ (save-Leads disk brim _))))
  perform-Pretends (add_info log (some key) key_len none val_len) l j s =
      unfold Api.add_info in refused disk brim l j s
  perform-Pretends (add_info log none key_len val val_len) l j s =
      unfold Api.add_info in refused disk brim l j s
  perform-Pretends (add_info null key key_len val val_len) l j s =
      unfold Api.add_info in refused disk brim l j s
  perform-Pretends (add_parameter log (some key) key_len (some val)) l j s =
      unfold Api.add_parameter in
      led disk brim _ l j _ s refl (
        save->> disk brim _ _
          (save->> disk brim _ _ (save->> disk brim _ _ (save-Leads disk brim _))))
  perform-Pretends (add_parameter log (some key) key_len none) l j s =
      unfold Api.add_parameter in refused disk brim l j s
  perform-Pretends (add_parameter log none key_len val) l j s =
      unfold Api.add_parameter in refused disk brim l j s
  perform-Pretends (add_parameter null key key_len val) l j s =
      unfold Api.add_parameter in refused disk brim l j s
  perform-Pretends start_data_phase l j s = start_data_phase-Pretends disk brim l j s
  perform-Pretends (log_string log (some string) len level) l j s =
      unfold Api.log_string in
      checked disk brim phase_data _ l j _ s refl (
        save->> disk brim _ _ (
          save->> disk brim _ _
            (uptime_us-Leads disk brim _ (λ us. save->> disk brim _ _ (save-Leads disk brim _)))))
  perform-Pretends (log_string log none len level) l j s =
      unfold Api.log_string in refused disk brim l j s
  perform-Pretends (log_string null string len level) l j s =
      unfold Api.log_string in refused disk brim l j s
  perform-Pretends (log_tagged_string log (some string) len level tag) l j s =
      unfold Api.log_tagged_string in
      checked disk brim phase_data _ l j _ s refl (
        save->> disk brim _ _ (
          save->> disk brim _ _ (
            save->> disk brim _ _ (
              uptime_us-Leads disk brim _ (λ us. save->> disk brim _ _ (save-Leads disk brim _))))))
  perform-Pretends (log_tagged_string log none len level tag) l j s =
      unfold Api.log_tagged_string in refused disk brim l j s
  perform-Pretends (log_tagged_string null string len level tag) l j s =
      unfold Api.log_tagged_string in refused disk brim l j s
  perform-Pretends (log_dropout log duration_ms) l j s =
      unfold Api.log_dropout in
      checked disk brim phase_data _ l j _ s refl (save->> disk brim _ _ (save-Leads disk brim _))
  perform-Pretends (log_dropout null duration_ms) l j s =
      unfold Api.log_dropout in refused disk brim l j s
  perform-Pretends (sync log) l j s = sync-Pretends disk brim l j _ s refl refl
  perform-Pretends (sync null) l j s = unfold Api.sync in refused disk brim l j s
  perform-Pretends (register_format d log) l j s =
      unfold Generated.register_format in
      checked disk brim phase_definitions _ l j _ s refl
        (save->> disk brim _ _ (save-Leads disk brim _))
  perform-Pretends (register_format d null) l j s =
      unfold Generated.register_format in refused disk brim l j s
  perform-Pretends (subscribe d log multi_id) l j s = subscribe-Pretends disk brim d multi_id l j s
  perform-Pretends (subscribe d null multi_id) l j s =
      unfold Generated.subscribe ◌>>=◌ in refused disk brim l j s
  perform-Pretends (write d log (some values) msg_id) l j s =
      unfold Generated.write in
      checked disk brim phase_data _ l j _ s refl (
        save->> disk brim _ _ (save->> disk brim _ _ (save_fields-Leads disk brim d.fields values)))
  perform-Pretends (write d log none msg_id) l j s =
      unfold Generated.write in refused disk brim l j s
  perform-Pretends (write d null values msg_id) l j s =
      unfold Generated.write in refused disk brim l j s

  run-Pretends :
      (cs : List Call) (l : Inst os) (j : Journal)
      → Stands disk brim l j
      → ((run os cs l).0 ≡ (promises cs j).0)
        × Stands disk brim (run os cs l).1 (promises cs j).1
        × (disk.written (run os cs l).1.file ≡ disk.written l.file)
  unfolding run promises
  run-Pretends [] l j s = (refl, s, refl)
  run-Pretends (c ∷ cs) l j s =
      let p = perform-Pretends c l j s in
      let (rs, stands, same) = run-Pretends cs (perform os c l).1 (promise c j).1 p.stands in
      (ap₂ ◌∷◌ p.result rs, stands, same ∙ p.same)

  -- For any sequence of calls of the log writer and of the generated code, with any arguments,
  -- on a file system as IsFile and IsFull describe it, whose disk is full at the start: every
  -- call returns what a journal of the same phase and next message id promises, and phase and
  -- next message id end as promised, while the file stays as it was, so every message is lost
  -- and no call reports it.
  pub full_disk_unnoticed :
      (cs : List Call) (l : Inst os) (j : Journal)
      → brim.Full l.file
      → l.phase ≡ j.phase
      → l.next_msg_id ≡ j.next_msg_id
      → ((run os cs l).0 ≡ (promises cs j).0)
        × ((run os cs l).1.phase ≡ (promises cs j).1.phase)
        × ((run os cs l).1.next_msg_id ≡ (promises cs j).1.next_msg_id)
        × (disk.written (run os cs l).1.file ≡ disk.written l.file)
  full_disk_unnoticed cs l j full p i =
      let (rs, stands, same) =
        run-Pretends cs l j (record { full = full; phase = p; next_msg_id = i }) in
      (rs, stands.phase, stands.next_msg_id, same)
