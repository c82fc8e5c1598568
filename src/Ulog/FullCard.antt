-- ===== src/Ulog/FullCard.antt =====
-- Calls on a card without room, which say that they succeeded.
use efc.Common.{◌≡◌, refl, List, [], ◌∷◌, some, codes}
use efc.Common.Exec.{ok, err, ◌>>=◌, or_return}
use efc.Ulog.Types.{wrong_phase, info, phase_data, Inst, log}
use efc.Ulog.Write.{try_write, uptime_us, write_sync}
use efc.Ulog.Api
use efc.Ulog.Generated
use efc.Ulog.Session.{
  Call, add_info, subscribe, log_string, log_dropout, sync, perform, run, promises, Journal,
}
use efc.Ulog.ShortDisk.{short, short_disk, short_full}
use efc.Ulog.Session.Full.{full_disk_unnoticed}

-- The header of a log is in the file, and nothing more fits.
abbrev stuffed : Inst short
stuffed = record {
  phase = phase_data;
  file = record { bytes = codes "ULog-----header-"; behind = []; room = 16; clock = 2000 };
  next_msg_id = 2;
}

abbrev journal : Journal
journal = record { phase = phase_data; next_msg_id = 2; messages = [] }

abbrev calls : List Call
calls =
    add_info log (some (codes "key")) 3 (some (codes "value")) 5
    ∷ subscribe (record { name = codes "gyro"; fields = [] }) log 0
    ∷ log_string log (some (codes "lost")) 4 info
    ∷ log_dropout log 20
    ∷ sync log
    ∷ []

calls_succeed : (run short calls stuffed).0 ≡ err wrong_phase ∷ ok tt ∷ ok tt ∷ ok tt ∷ ok tt ∷ []
unfolding run perform Api.add_info Api.log_dropout Api.log_string Api.sync Api.save
    Api.require_phase Generated.subscribe write_sync try_write or_return ◌>>=◌ uptime_us
calls_succeed = refl

full_disk_unnoticed_example :
    ((run short calls stuffed).0 ≡ (promises calls journal).0)
    × ((run short calls stuffed).1.phase ≡ (promises calls journal).1.phase)
    × ((run short calls stuffed).1.next_msg_id ≡ (promises calls journal).1.next_msg_id)
    × ((run short calls stuffed).1.file.bytes ≡ codes "ULog-----header-")
full_disk_unnoticed_example =
    full_disk_unnoticed short_disk short_full calls stuffed journal refl refl refl
