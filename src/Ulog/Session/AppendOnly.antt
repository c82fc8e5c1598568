-- ===== src/Ulog/Session/AppendOnly.antt =====
-- Whatever the file system does, also when the disk fills up, calls only write at the position of the
-- file.
use efc.Common.{refl, List, [], ◌∷◌}
use efc.Ulog.Platform.{Platform, IsFile}
use efc.Ulog.Types.{ErrorType, Inst}
use efc.Ulog.Appends.{Over, same-Over, Over-trans, Appends, >>=-Appends, pure-Appends}
use efc.Ulog.Api.AppendOnly.{
  add_info-Appends, add_parameter-Appends, start_data_phase-Appends, log_string-Appends,
  log_tagged_string-Appends, log_dropout-Appends, sync-Appends,
}
use efc.Ulog.Generated.AppendOnly.{register_format-Appends, subscribe-Appends, write-Appends}
use efc.Ulog.Session.{
  Call, add_info, add_parameter, start_data_phase, log_string, log_tagged_string, log_dropout, sync,
  register_format, subscribe, write, perform, run,
}

module _ {os : Platform} (disk : IsFile os) where
  perform-Appends : (c : Call) → Appends disk (perform os c)
  unfolding perform
  perform-Appends (add_info p key key_len val val_len) =
      add_info-Appends disk p key key_len val val_len
  perform-Appends (add_parameter p key key_len val) = add_parameter-Appends disk p key key_len val
  perform-Appends start_data_phase = start_data_phase-Appends disk
  perform-Appends (log_string p string len level) = log_string-Appends disk p string len level
  perform-Appends (log_tagged_string p string len level tag) =
      log_tagged_string-Appends disk p string len level tag
  perform-Appends (log_dropout p duration_ms) = log_dropout-Appends disk p duration_ms
  perform-Appends (sync p) = sync-Appends disk p
  perform-Appends (register_format d p) = register_format-Appends disk d p
  perform-Appends (subscribe d p multi_id) =
      >>=-Appends disk _ _ (subscribe-Appends disk d p multi_id)
        (λ id. pure-Appends disk ErrorType tt)
  perform-Appends (write d p values msg_id) = write-Appends disk d p values msg_id

  pub run-Appends : (cs : List Call) (l : Inst os) → Over disk l.file (run os cs l).1.file
  unfolding run
  run-Appends [] l = same-Over disk _ _ refl refl
  run-Appends (c ∷ cs) l =
      Over-trans disk _ _ _ (perform-Appends c l) (run-Appends cs (perform os c l).1)
